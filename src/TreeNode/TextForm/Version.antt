-- ===== src/TreeNode/TextForm/Version.antt =====
-- The text form of a version is read back.
use world_wide_anthropomorph.Stream.{
  is_space, space, read_word, put_number, read_number, put_int, get_byte, starts_digit, digit_of,
}
use world_wide_anthropomorph.Stream.Numbers.{
  read_int-space, FitsInt, Stops, read_number-put_number, read_number-space, read_int-put_int,
}
use world_wide_anthropomorph.Base.{
  drop, ℕ, ◌<◌, ◌≡◌, refl, ◌∙◌, true, false, Option, none, some, [], ◌∷◌, ◌++◌, arith, length, ok,
  Result, ℤ, ◌>>=◌,
}
use world_wide_anthropomorph.Text.{byte_at, Text, bytes, text_eq, is_empty}
use world_wide_anthropomorph.Stream.Words.{
  IsWord-cons, IsWord, Ends, read_word-append, read_word-space,
}
use world_wide_anthropomorph.TreeNode.{TreeNodeVersion}
use world_wide_anthropomorph.TreeNode.TextForm.{
  put_maybe_word, put_maybe_int, read_maybe_word, read_maybe_int, put_version, read_version,
  read_after_label, short_values,
}

-- What the text form of an optional text can hold.
abbrev pub MaybeWord : Option Text → Type 0
MaybeWord none = Unit
MaybeWord (some word) = IsWord word

abbrev pub MaybeInt : Option ℤ → Type 0
MaybeInt none = Unit
MaybeInt (some i) = FitsInt i

pub record VersionFits (v : TreeNodeVersion) : Type 0 where
  pub number_fits : v.version_number < short_values
  pub max_fits : v.max_version_sequence < short_values
  pub policy_word : IsWord v.policy
  pub proof_word : MaybeWord v.authorial_proof
  pub authors_word : MaybeWord v.authors
  pub readers_word : MaybeWord v.readers
  pub depth_fits : MaybeInt v.collision_depth

pub read_word-spaced :
    (w rest : Text) → IsWord w → Ends rest → read_word (space ∷ (w ++ rest)) ≡ ok (w, rest)
read_word-spaced w rest h e = read_word-space space (w ++ rest) refl ∙ read_word-append w rest h e

pub read_number-spaced :
    (limit n : ℕ) (out : Text)
    → n < limit
    → Stops false out
    → read_number limit (space ∷ put_number n out) ≡ ok (n, out)
read_number-spaced limit n out h stops =
    read_number-space limit space (put_number n out) refl
    ∙ read_number-put_number limit n out h stops

nothing-IsWord : IsWord (bytes "Nothing")
nothing-IsWord = IsWord-cons (byte_at (bytes "Nothing") 0) (drop 1 (bytes "Nothing")) refl

just-IsWord : IsWord (bytes "Just")
just-IsWord = IsWord-cons (byte_at (bytes "Just") 0) (drop 1 (bytes "Just")) refl

read_maybe_word-put :
    (o : Option Text) (out : Text)
    → MaybeWord o
    → Ends out
    → read_maybe_word (space ∷ put_maybe_word o out) ≡ ok (o, out)
unfolding read_maybe_word put_maybe_word text_eq
read_maybe_word-put none out h e =
    rw (read_maybe_word, read_word-spaced (bytes "Nothing") out nothing-IsWord e) refl
read_maybe_word-put (some word) out h e =
    rw
      (
        read_maybe_word,
        read_word-spaced (bytes "Just") (space ∷ (word ++ out)) just-IsWord refl,
        read_word-spaced word out h e,
      )
      refl

read_maybe_int-put :
    (o : Option ℤ) (out : Text)
    → MaybeInt o
    → Ends out
    → Stops false out
    → read_maybe_int (space ∷ put_maybe_int o out) ≡ ok (o, out)
unfolding read_maybe_int put_maybe_int text_eq
read_maybe_int-put none out h e stops =
    rw (read_maybe_int, read_word-spaced (bytes "Nothing") out nothing-IsWord e) refl
read_maybe_int-put (some i) out h e stops =
    rw
      (
        read_maybe_int,
        read_word-spaced (bytes "Just") (space ∷ put_int i out) just-IsWord refl,
        read_int-space space (put_int i out) refl,
        read_int-put_int i out h stops,
      )
      refl

pub filled_not_empty : (s : Text) → 0 < length s → is_empty s ≡ false
filled_not_empty [] h = absurd (omega (arith, h))
filled_not_empty (c ∷ s) h = refl

-- A label is passed over, with a space in front of it or without.
pub after_label {ℓ} :
    {A : Type ℓ} (read : Text → Result (A × Text)) (label rest : Text)
    → IsWord label
    → Ends rest
    → read_after_label read (label ++ rest) ≡ read rest
after_label read label rest h e = rw (read_word-append label rest h e) refl

pub after_spaced_label {ℓ} :
    {A : Type ℓ} (read : Text → Result (A × Text)) (label rest : Text)
    → IsWord label
    → Ends rest
    → read_after_label read (space ∷ (label ++ rest)) ≡ read rest
after_spaced_label read label rest h e = rw (read_word-spaced label rest h e) refl

-- The text of a version is read back, up to the space that ends it.
pub read_version-put_version :
    (v : TreeNodeVersion) (out : Text)
    → VersionFits v
    → (put_version v out >>= λ text. read_version text) ≡ ok (v, out)
unfolding put_version
read_version-put_version v out h =
    let t7 : Text = bytes " Collision_Depth: " ++ put_maybe_int v.collision_depth (space ∷ out) in
    let t6 : Text = bytes " Readers: " ++ put_maybe_word v.readers t7 in
    let t5 : Text = bytes " Authors: " ++ put_maybe_word v.authors t6 in
    let t4 : Text = bytes " Authorial_Proof: " ++ put_maybe_word v.authorial_proof t5 in
    let t3 : Text = bytes " Policy: " ++ (v.policy ++ t4) in
    let t2 : Text = bytes " Max_Version: " ++ put_number v.max_version_sequence t3 in
    let t1 : Text = bytes "Version: " ++ put_number v.version_number t2 in
    let e1 : read_after_label (read_number short_values) t1 ≡ ok (v.version_number, t2) =
      after_label (read_number short_values) (bytes "Version:")
        (space ∷ put_number v.version_number t2) (IsWord-cons b'V' (bytes "ersion:") refl) refl
      ∙ read_number-spaced short_values v.version_number t2 h.number_fits
          (unfold starts_digit digit_of in refl) in
    let e2 : read_after_label (read_number short_values) t2 ≡ ok (v.max_version_sequence, t3) =
      after_spaced_label (read_number short_values) (bytes "Max_Version:")
        (space ∷ put_number v.max_version_sequence t3) (IsWord-cons b'M' (bytes "ax_Version:") refl)
        refl
      ∙ read_number-spaced short_values v.max_version_sequence t3 h.max_fits
          (unfold starts_digit digit_of in refl) in
    let e3 : read_after_label read_word t3 ≡ ok (v.policy, t4) =
      after_spaced_label read_word (bytes "Policy:") (space ∷ (v.policy ++ t4))
        (IsWord-cons b'P' (bytes "olicy:") refl) refl
      ∙ read_word-spaced v.policy t4 h.policy_word refl in
    let e4 : read_after_label read_maybe_word t4 ≡ ok (v.authorial_proof, t5) =
      after_spaced_label read_maybe_word (bytes "Authorial_Proof:")
        (space ∷ put_maybe_word v.authorial_proof t5)
        (IsWord-cons b'A' (bytes "uthorial_Proof:") refl) refl
      ∙ read_maybe_word-put v.authorial_proof t5 h.proof_word refl in
    let e5 : read_after_label read_maybe_word t5 ≡ ok (v.authors, t6) =
      after_spaced_label read_maybe_word (bytes "Authors:") (space ∷ put_maybe_word v.authors t6)
        (IsWord-cons b'A' (bytes "uthors:") refl) refl
      ∙ read_maybe_word-put v.authors t6 h.authors_word refl in
    let e6 : read_after_label read_maybe_word t6 ≡ ok (v.readers, t7) =
      after_spaced_label read_maybe_word (bytes "Readers:") (space ∷ put_maybe_word v.readers t7)
        (IsWord-cons b'R' (bytes "eaders:") refl) refl
      ∙ read_maybe_word-put v.readers t7 h.readers_word refl in
    let e7 : read_after_label read_maybe_int t7 ≡ ok (v.collision_depth, space ∷ out) =
      after_spaced_label read_maybe_int (bytes "Collision_Depth:")
        (space ∷ put_maybe_int v.collision_depth (space ∷ out))
        (IsWord-cons b'C' (bytes "ollision_Depth:") refl) refl
      ∙ read_maybe_int-put v.collision_depth (space ∷ out) h.depth_fits refl
          (unfold starts_digit digit_of in refl) in
    let policy : is_empty v.policy ≡ false = filled_not_empty v.policy h.policy_word.filled in
    let read : read_version t1 ≡ ok (v, out) =
      unfold read_version get_byte in rw (read_version, e1, e2, e3, e4, e5, e6, e7) refl in
    rw policy read

pub read_version-space :
    (c : ℕ) (s : Text) → is_space c ≡ true → read_version (c ∷ s) ≡ read_version s
unfolding read_version
read_version-space c s h = rw (read_version, read_word-space c s h) refl
