-- ===== src/TreeMessage/Nodes/Tail.antt =====
-- The last chunk of a long string, at whose end the number of chunks of property data stands.
use mathlib.Core.List.{append-nil, append_assoc}
use world_wide_anthropomorph.Base.{
  ℕ, zero, suc, ◌+◌, ◌-◌, ◌%◌, ◌<◌, ◌≤◌, ◌≡◌, refl, ap, sym, ◌∙◌, inl, inr, true, false, List, [],
  ◌∷◌, ◌++◌, arith, length, take, drop, length-append, if◌then◌else◌, leb, ltb, Bool-cases,
}
use world_wide_anthropomorph.Text.{Text}
use world_wide_anthropomorph.SharedSpan.Restrict.{all_bytes, length-drop}
use world_wide_anthropomorph.TreeNode.Property.{put_bytes}
use world_wide_anthropomorph.TreeNode.Property.Layout.{length-put_bytes}
use world_wide_anthropomorph.TreeMessage.{max_payload, first_payload, split_payloads, long_payloads}
use world_wide_anthropomorph.TreeMessage.Payloads.{long_payloads-bytes}
use world_wide_anthropomorph.TreeMessage.Codec.{lt-of_ltb, le-of_ltb}

-- The bytes in the last chunk of a long string of so many bytes.
abbrev pub tail_size : ℕ → ℕ
tail_size n = if leb n first_payload then n + 8 else (n - 1187) % max_payload + 1

tail_size_long : (n : ℕ) → first_payload < n → tail_size n ≡ (n - 1187) % max_payload + 1
tail_size_long n h = let above : leb n first_payload ≡ false = ground (arith, h) in rw above refl

tail_size_short : (n : ℕ) → n ≤ first_payload → tail_size n ≡ n + 8
tail_size_short n h = let below : leb n first_payload ≡ true = ground (arith, h) in rw below refl

-- The last of some payloads, and those before it.
pub record LastPayload (payloads : List (List ℕ)) (size : ℕ) : Type 0 where
  pub init : List (List ℕ)
  pub last : List ℕ
  pub parts : payloads ≡ init ++ last ∷ []
  pub last_length : length last ≡ size

length-take_min : (n : ℕ) (s : List ℕ) → n ≤ length s → length (take n s) ≡ n
length-take_min zero s h = refl
length-take_min (suc n) [] h = absurd (omega (arith, h))
length-take_min (suc n) (x ∷ s) h = omega (arith, length-take_min n s (omega (arith, h)))

take_whole : (n : ℕ) (s : List ℕ) → length s ≤ n → take n s ≡ s
take_whole zero [] h = refl
take_whole zero (x ∷ s) h = absurd (omega (arith, h))
take_whole (suc n) [] h = refl
take_whole (suc n) (x ∷ s) h = ap (λ t. x ∷ t) (take_whole n s (omega (arith, h)))

pub drop_whole : (n : ℕ) (s : List ℕ) → length s ≤ n → drop n s ≡ []
drop_whole zero [] h = refl
drop_whole zero (x ∷ s) h = absurd (omega (arith, h))
drop_whole (suc n) [] h = refl
drop_whole (suc n) (x ∷ s) h = drop_whole n s (omega (arith, h))

pub split_none : (f : ℕ) → split_payloads f [] ≡ []
unfolding split_payloads
split_none zero = refl
split_none (suc f) = refl

split_payloads-LastPayload :
    (f : ℕ) (s : List ℕ)
    → 0 < length s
    → length s ≤ f
    → LastPayload (split_payloads f s) ((length s - 1) % max_payload + 1)
unfolding split_payloads
split_payloads-LastPayload f [] h less = absurd (omega (arith, h))
split_payloads-LastPayload zero (x ∷ s) h less = absurd (omega (arith, less))
split_payloads-LastPayload (suc f) (x ∷ s) h less =
    elim (Bool-cases (ltb max_payload (suc (length s)))) [
      | inl e ↦
          let rest : List ℕ = drop max_payload (x ∷ s) in
          let more : max_payload < suc (length s) = lt-of_ltb max_payload (suc (length s)) e in
          let size : length rest ≡ suc (length s) - max_payload = length-drop max_payload (x ∷ s) in
          let ih : LastPayload (split_payloads f rest) ((length rest - 1) % max_payload + 1) =
            split_payloads-LastPayload f rest (omega (arith, size, more))
              (omega (arith, size, more, less)) in
          record {
            init = take max_payload (x ∷ s) ∷ ih.init;
            last = ih.last;
            parts = ap (λ t. take max_payload (x ∷ s) ∷ t) ih.parts;
            last_length = omega (arith, ih.last_length, size, more);
          }
      | inr e ↦
          let all : suc (length s) ≤ max_payload = le-of_ltb max_payload (suc (length s)) e in
          let none_left : split_payloads f (drop max_payload (x ∷ s)) ≡ [] =
            ap (split_payloads f) (drop_whole max_payload (x ∷ s) all) ∙ split_none f in
          record {
            init = [];
            last = take max_payload (x ∷ s);
            parts = ap (λ t. take max_payload (x ∷ s) ∷ t) none_left;
            last_length =
                omega
                  (arith, ap (λ (t : List ℕ). length t) (take_whole max_payload (x ∷ s) all), all);
          }
    ]

pub long_payloads-LastPayload : (s : Text) → LastPayload (long_payloads s) (tail_size (length s))
unfolding long_payloads
long_payloads-LastPayload s =
    let head : List ℕ = put_bytes 8 (length s) ++ take first_payload s in
    let head_size : length head ≡ 8 + length (take first_payload s) = omega (
      arith,
      length-append (put_bytes 8 (length s)) (take first_payload s),
      length-put_bytes 8 (length s),
    ) in
    elim (Bool-cases (ltb first_payload (length s))) [
      | inl e ↦
          let rest : List ℕ = drop first_payload s in
          let more : first_payload < length s = lt-of_ltb first_payload (length s) e in
          let size : length rest ≡ length s - first_payload = length-drop first_payload s in
          let ih : LastPayload (split_payloads (length s) rest)
              ((length rest - 1) % max_payload + 1) =
            split_payloads-LastPayload (length s) rest (omega (arith, size, more))
              (omega (arith, size)) in
          record {
            init = head ∷ ih.init;
            last = ih.last;
            parts = ap (λ t. head ∷ t) ih.parts;
            last_length =
                ih.last_length
                ∙ ap (λ n. n % max_payload + 1) (omega (arith, size))
                ∙ sym (tail_size_long (length s) more);
          }
      | inr e ↦
          let all : length s ≤ first_payload = le-of_ltb first_payload (length s) e in
          let none_left : split_payloads (length s) (drop first_payload s) ≡ [] =
            ap (split_payloads (length s)) (drop_whole first_payload s all)
            ∙ split_none (length s) in
          record {
            init = [];
            last = head;
            parts = ap (λ t. head ∷ t) none_left;
            last_length = omega (
              arith,
              head_size,
              ap (λ (t : List ℕ). length t) (take_whole first_payload s all),
              tail_size_short (length s) all,
            );
          }
    ]

drop-append_more : (k : ℕ) (a p : List ℕ) → drop (length a + k) (a ++ p) ≡ drop k p
drop-append_more k [] p = ap (λ n. drop n p) (omega arith)
drop-append_more k (x ∷ a) p =
    let next : length (x ∷ a) + k ≡ suc (length a + k) = omega arith in
    ap (λ n. drop n (x ∷ (a ++ p))) next ∙ drop-append_more k a p

-- Where two texts agree, so do their ends.
end_unique :
    (a p b e : List ℕ) → a ++ p ≡ b ++ e → length e ≤ length p → drop (length p - length e) p ≡ e
end_unique a p b e same h =
    let sizes : length a + length p ≡ length b + length e =
      omega (arith, ap (λ (t : List ℕ). length t) same, length-append a p, length-append b e) in
    sym (drop-append_more (length p - length e) a p)
    ∙ ap (drop (length a + (length p - length e))) same
    ∙ ap (λ n. drop n (b ++ e)) (omega (arith, sizes, h))
    ∙ drop-append_more 0 b e

all_bytes-append : (ps qs : List (List ℕ)) → all_bytes (ps ++ qs) ≡ all_bytes ps ++ all_bytes qs
unfolding all_bytes
all_bytes-append [] qs = refl
all_bytes-append (p ∷ ps) qs =
    ap (λ t. p ++ t) (all_bytes-append ps qs) ∙ sym (append_assoc p (all_bytes ps) (all_bytes qs))

-- The end of a string stands at the end of its last chunk, if it fits there.
pub last_payload-end :
    (str front e : Text) {size : ℕ} (l : LastPayload (long_payloads str) size)
    → str ≡ front ++ e
    → length e ≤ length l.last
    → drop (length l.last - length e) l.last ≡ e
unfolding all_bytes
last_payload-end str front e l same h =
    let size_bytes : List ℕ = put_bytes 8 (length str) in
    end_unique (all_bytes l.init) l.last (size_bytes ++ front) e
      (ap (λ t. all_bytes l.init ++ t) (sym (append-nil l.last))
        ∙ sym (all_bytes-append l.init (l.last ∷ []))
        ∙ ap all_bytes (sym l.parts)
        ∙ long_payloads-bytes str
        ∙ ap (λ t. size_bytes ++ t) same
        ∙ sym (append_assoc size_bytes front e))
      h
