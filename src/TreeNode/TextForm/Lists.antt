-- ===== src/TreeNode/TextForm/Lists.antt =====
-- The lists of properties and of child names, and the texts behind their lengths, are read back.
use world_wide_anthropomorph.Stream.Words.{
  read_word-space, IsWord, IsWord-cons, IsPlain, read_word-append,
}
use mathlib.Core.List.{append_assoc}
use world_wide_anthropomorph.Base.{
  ℕ, zero, suc, ◌-◌, ◌<◌, ◌≤◌, ◌≡◌, refl, ap, sym, ◌∙◌, true, false, List, [], ◌∷◌, ◌++◌, arith,
  All, All-append, length, ok, Result, take-append, drop-append, length-append, ltb, ◌==◌, ◌>>=◌,
}
use world_wide_anthropomorph.Text.{Text, bytes, back}
use world_wide_anthropomorph.TreeNode.{PropertyInfo}
use world_wide_anthropomorph.Stream.{
  space, read_word, read_number, put_number, starts_digit, digit_of, get_byte,
}
use world_wide_anthropomorph.TreeNode.TextForm.{
  comma, line_end, long_values, put_infos, put_names, read_infos, read_names, without_comma,
  without_parentheses, skip_one_space, at_bracket, read_length_string, write_length_string,
  read_list,
}
use world_wide_anthropomorph.TreeNode.TextForm.Version.{read_word-spaced, read_number-spaced}

-- A text that does not begin with a bracket that closes a list.
abbrev pub NoBracket : Text → Type 0
NoBracket s = at_bracket s ≡ false

-- What the text form of a property can hold.
pub record InfoFits (info : PropertyInfo) : Type 0 where
  pub type_word : IsWord info.0
  pub type_open : NoBracket info.0
  pub type_end : (back info.0 == comma) ≡ false
  pub name_plain : All IsPlain info.1

-- What the text form of a child's name can hold.
pub record NameFits (name : Text) : Type 0 where
  pub name_plain : All IsPlain name
  pub name_open : NoBracket name

without_comma-append : (w : Text) → without_comma (w ++ comma ∷ []) ≡ w
unfolding without_comma
without_comma-append [] = refl
without_comma-append (c ∷ []) = refl
without_comma-append (c ∷ d ∷ w) = ap (λ t. c ∷ t) (without_comma-append (d ∷ w))

without_comma_same : (w : Text) → (back w == comma) ≡ false → without_comma w ≡ w
unfolding without_comma
without_comma_same [] h = refl
without_comma_same (c ∷ []) h = rw h refl
without_comma_same (c ∷ d ∷ w) h = ap (λ t. c ∷ t) (without_comma_same (d ∷ w) h)

back-append : (c d : ℕ) (w : Text) → back (c ∷ (w ++ d ∷ [])) ≡ d
back-append c d [] = refl
back-append c d (e ∷ w) = back-append e d w

without_parentheses-append : (w : Text) → without_parentheses (b'(' ∷ (w ++ b')' ∷ [])) ≡ w
unfolding without_parentheses
without_parentheses-append w =
    let size : length (w ++ b')' ∷ []) - 1 ≡ length w =
      omega (arith, length-append w (b')' ∷ [])) in
    rw (back-append b'(' b')' w, size) (take-append w (b')' ∷ []))

at_bracket-append :
    (w : Text) (c : ℕ) (out : Text) → NoBracket w → (c == b']') ≡ false → NoBracket (w ++ c ∷ out)
at_bracket-append [] c out h e = e
at_bracket-append (d ∷ w) c out h e = h

read_infos_step :
    (f : ℕ) (info : PropertyInfo) (out : Text)
    → InfoFits info
    → read_infos (suc f) (put_infos (info ∷ []) out)
      ≡ (read_infos f out >>= λ (infos, s). ok (info ∷ infos, s))
unfolding read_infos put_infos skip_one_space
read_infos_step f (type, name) out h =
    let word : Text = b'(' ∷ (name ++ b')' ∷ comma ∷ []) in
    let text : Text = type ++ (space ∷ (word ++ space ∷ out)) in
    let same : type ++ (bytes " (" ++ (name ++ (bytes "), " ++ out))) ≡ text =
      ap (λ t. type ++ (space ∷ b'(' ∷ t))
        (sym (append_assoc name (b')' ∷ comma ∷ []) (space ∷ out))) in
    let unclosed : at_bracket text ≡ false =
      at_bracket-append type space (word ++ space ∷ out) h.type_open refl in
    let first : read_word text ≡ ok (type, space ∷ (word ++ space ∷ out)) =
      read_word-append type (space ∷ (word ++ space ∷ out)) h.type_word refl in
    let IsWord-name : IsWord word = record {
      filled = omega arith;
      plain = (refl, All-append IsPlain name (b')' ∷ comma ∷ []) h.name_plain (refl, (refl, tt)));
    } in
    let second : read_word (space ∷ (word ++ space ∷ out)) ≡ ok (word, space ∷ out) =
      read_word-spaced word (space ∷ out) IsWord-name refl in
    let value : without_parentheses (without_comma word) ≡ name =
      ap (λ w. without_parentheses (without_comma (b'(' ∷ w)))
        (sym (append_assoc name (b')' ∷ []) (comma ∷ [])))
      ∙ ap without_parentheses (without_comma-append (b'(' ∷ (name ++ b')' ∷ [])))
      ∙ without_parentheses-append name in
    ap (read_infos (suc f)) same
    ∙ rw (read_infos, unclosed, first, second, value, without_comma_same type h.type_end) refl

read_infos-put_infos :
    (f : ℕ) (infos : List PropertyInfo) (out : Text)
    → All InfoFits infos
    → at_bracket out ≡ true
    → length infos < f
    → read_infos f (put_infos infos out) ≡ ok (infos, out)
unfolding read_infos put_infos
read_infos-put_infos zero infos out h e less = absurd (omega (arith, less))
read_infos-put_infos (suc f) [] out h e less = rw (read_infos, e) refl
read_infos-put_infos (suc f) (info ∷ infos) out h e less =
    read_infos_step f info (put_infos infos out) h.0
    ∙ rw (read_infos-put_infos f infos out h.1 e (omega (arith, less))) refl

read_names_step :
    (f : ℕ) (name : Text) (out : Text)
    → NameFits name
    → read_names (suc f) (put_names (name ∷ []) out)
      ≡ (read_names f out >>= λ (names, s). ok (name ∷ names, s))
unfolding read_names put_names skip_one_space
read_names_step f name out h =
    let word : Text = name ++ comma ∷ [] in
    let text : Text = word ++ space ∷ out in
    let same : name ++ (bytes ", " ++ out) ≡ text =
      sym (append_assoc name (comma ∷ []) (space ∷ out)) in
    let unclosed : at_bracket text ≡ false =
      rw (← same) (at_bracket-append name comma (space ∷ out) h.name_open refl) in
    let IsWord-name : IsWord word = record {
      filled = omega (arith, length-append name (comma ∷ []));
      plain = All-append IsPlain name (comma ∷ []) h.name_plain (refl, tt);
    } in
    let first : read_word text ≡ ok (word, space ∷ out) =
      read_word-append word (space ∷ out) IsWord-name refl in
    ap (read_names (suc f)) same ∙ rw (read_names, unclosed, first, without_comma-append name) refl

read_names-put_names :
    (f : ℕ) (names : List Text) (out : Text)
    → All NameFits names
    → at_bracket out ≡ true
    → length names < f
    → read_names f (put_names names out) ≡ ok (names, out)
unfolding read_names put_names
read_names-put_names zero names out h e less = absurd (omega (arith, less))
read_names-put_names (suc f) [] out h e less = rw (read_names, e) refl
read_names-put_names (suc f) (name ∷ names) out h e less =
    read_names_step f name (put_names names out) h.0
    ∙ rw (read_names-put_names f names out h.1 e (omega (arith, less))) refl

-- A text has a byte for each entry of its list.
length-put_infos :
    (infos : List PropertyInfo) (out : Text) → length infos ≤ length (put_infos infos out)
unfolding put_infos
length-put_infos [] out = omega arith
length-put_infos ((type, name) ∷ infos) out = omega (
  arith,
  length-put_infos infos out,
  length-append type (bytes " (" ++ (name ++ (bytes "), " ++ put_infos infos out))),
  length-append name (bytes "), " ++ put_infos infos out),
)

length-put_names : (names : List Text) (out : Text) → length names ≤ length (put_names names out)
unfolding put_names
length-put_names [] out = omega arith
length-put_names (name ∷ names) out =
    omega
      (arith, length-put_names names out, length-append name (bytes ", " ++ put_names names out))

-- A list that its loop reads is read behind its label and its bracket.
read_list-framed :
    {A : Type 0} (loop : ℕ → Text → Result (A × Text)) (label s s0 rest : Text) (values : A)
    → IsWord label
    → read_word s0 ≡ read_word (label ++ (bytes " [ " ++ s))
    → loop (suc (length s)) s ≡ ok (values, bytes "]," ++ (space ∷ rest))
    → read_list loop s0 ≡ ok (values, space ∷ rest)
unfolding read_list get_byte
read_list-framed loop label s s0 rest values h same e =
    let e1 : read_word s0 ≡ ok (label, bytes " [ " ++ s) =
      same ∙ read_word-append label (bytes " [ " ++ s) h refl in
    let e2 : read_word (bytes " [ " ++ s) ≡ ok (bytes "[", space ∷ s) =
      read_word-spaced (bytes "[") (space ∷ s) (IsWord-cons b'[' [] refl) refl in
    let e5 : read_word (bytes "]," ++ (space ∷ rest)) ≡ ok (bytes "],", space ∷ rest) =
      read_word-append (bytes "],") (space ∷ rest) (IsWord-cons b']' (bytes ",") refl) refl in
    rw (read_list, e1, e2, e, e5) refl

pub read_list-put_infos :
    (infos : List PropertyInfo) (rest : Text)
    → All InfoFits infos
    → read_list read_infos (bytes "property_infos: [ " ++ put_infos infos (bytes "], " ++ rest))
      ≡ ok (infos, space ∷ rest)
read_list-put_infos infos rest h =
    let out : Text = bytes "], " ++ rest in
    read_list-framed read_infos (bytes "property_infos:") (put_infos infos out)
      (bytes "property_infos: [ " ++ put_infos infos out) rest infos
      (IsWord-cons b'p' (bytes "roperty_infos:") refl) refl
      (read_infos-put_infos (suc (length (put_infos infos out))) infos out h refl
        (omega (arith, length-put_infos infos out)))

pub read_list-put_names :
    (names : List Text) (rest : Text)
    → All NameFits names
    → read_list read_names
        (space ∷ (bytes "child_names: [ " ++ put_names names (bytes "], " ++ rest)))
      ≡ ok (names, space ∷ rest)
read_list-put_names names rest h =
    let out : Text = bytes "], " ++ rest in
    read_list-framed read_names (bytes "child_names:") (put_names names out)
      (space ∷ (bytes "child_names: [ " ++ put_names names out)) rest names
      (IsWord-cons b'c' (bytes "hild_names:") refl)
      (read_word-space space (bytes "child_names: [ " ++ put_names names out) refl)
      (read_names-put_names (suc (length (put_names names out))) names out h refl
        (omega (arith, length-put_names names out)))

-- Any text whose size is a size_t is read back behind a label, white space before it or not.
pub read_length_string-write :
    (label str out s : Text)
    → IsWord label
    → length str < long_values
    → read_word s ≡ read_word (write_length_string label str out)
    → read_length_string s ≡ ok ((label, str), out)
unfolding read_length_string write_length_string get_byte
read_length_string-write label str out s h small same =
    let t4 : Text = str ++ line_end ∷ out in
    let t2 : Text = bytes " :\n" ++ t4 in
    let t1 : Text = space ∷ put_number (length str) t2 in
    let e1 : read_word s ≡ ok (label, t1) = same ∙ read_word-append label t1 h refl in
    let e2 : read_number long_values t1 ≡ ok (length str, t2) =
      read_number-spaced long_values (length str) t2 small (unfold starts_digit digit_of in refl) in
    let e3 : read_word t2 ≡ ok (bytes ":", line_end ∷ t4) =
      read_word-spaced (bytes ":") (line_end ∷ t4) (IsWord-cons b':' [] refl) refl in
    let long : ltb (length t4) (length str) ≡ false =
      ground (arith, length-append str (line_end ∷ out)) in
    rw
      (
        read_length_string,
        e1,
        e2,
        e3,
        long,
        take-append str (line_end ∷ out),
        drop-append str (line_end ∷ out),
      )
      refl
