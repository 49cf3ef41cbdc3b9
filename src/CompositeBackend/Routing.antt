-- ===== src/CompositeBackend/Routing.antt =====
-- getRelevantBackend: where a label is sent.
use world_wide_anthropomorph.Text.Order.{
  text_lt_trans, text_lt-longer, text_lt-append, text_lt-append_both,
}
use world_wide_anthropomorph.Base.{
  length-append, ℕ, suc, ◌+◌, ◌<◌, ◌≡◌, ◌∙◌, ap, refl, subst, true, false, some, [], ◌∷◌, ◌++◌,
  arith, drop, length, Option-cases, Bool-cases, inl, inr, ◌⊎◌, ◌==◌,
}
use mathlib.Core.Option.{some-injective}
use native.Mathlib.Numerals.{add-one}
use mathlib.Core.List.{append-nil}
use world_wide_anthropomorph.Text.{Text, slash, text_lt, starts_with, byte_at}
use world_wide_anthropomorph.Text.Search.{
  starts_with-append, starts_with-append_both, starts_with-same_length, starts_with-next,
  byte_at-append,
}
use world_wide_anthropomorph.OrderedMap.{OrderedMap, lookup, not_above}
use world_wide_anthropomorph.OrderedMap.Sorted.{IsSorted, not_above-lookup}
use world_wide_anthropomorph.CompositeBackend.{
  at_root, last_entry, relevant_at, get_relevant_backend,
}

-- The label is the rule, or goes on below it after a slash, and the index is past that.
abbrev pub LeadsTo : Text → Text → ℕ → Type 0
LeadsTo label rule index =
    ((label ≡ rule) × (index ≡ length rule))
    ⊎ ((rule ++ slash ∷ drop index label ≡ label) × (index ≡ suc (length rule)))

relevant_at_sound :
    (label mounted rule : Text)
    → (relevant_at label mounted).mount ≡ some rule
    → LeadsTo label rule (relevant_at label mounted).index
unfolding relevant_at
relevant_at_sound label mounted rule h = elim (Bool-cases (starts_with label mounted)) [
  | inr e ↦ cc (rw (e, relevant_at) at h)
  | inl begins ↦ elim (Bool-cases (length label == length mounted)) [
    | inl same ↦
        let is_rule : mounted ≡ rule =
          some-injective mounted rule (rw (begins, same, relevant_at) at h) in
        rw (begins, same, relevant_at)
          (inl (
            starts_with-same_length label mounted begins (ground arith) ∙ is_rule,
            ap (λ (x : Text). length x) is_rule,
          ))
    | inr longer ↦ elim (Bool-cases (byte_at label (length mounted) == slash)) [
      | inr e ↦ cc (rw (begins, longer, e, relevant_at) at h)
      | inl at_slash ↦
          let is_rule : mounted ≡ rule =
            some-injective mounted rule (rw (begins, longer, at_slash, relevant_at) at h) in
          rw (begins, longer, at_slash, relevant_at, add-one)
            (inr (
              subst (λ x. x ++ slash ∷ drop (suc (length mounted)) label ≡ label) is_rule
                  (starts_with-next label mounted slash begins (ground arith) (ground arith)),
              ap (λ (x : Text). suc (length x)) is_rule,
            ))
    ]
  ]
]

-- A label is sent only to a mount at a rule that it is or lies below, with as much cut off as
-- leads there.
pub get_relevant_backend_sound :
    {S : Type 0} (mounted : OrderedMap S) (label rule : Text)
    → (get_relevant_backend mounted label).mount ≡ some rule
    → LeadsTo label rule (get_relevant_backend mounted label).index
unfolding get_relevant_backend
get_relevant_backend_sound mounted label rule h =
    elim (Option-cases (last_entry (not_above label mounted))) [
      | inl e ↦ cc (rw (e, get_relevant_backend) at h)
      | inr ((r, s), e) ↦
          rw (e, get_relevant_backend)
            (relevant_at_sound label r rule (rw (e, get_relevant_backend) at h))
    ]

last_entry-append :
    {S : Type 0} (front : OrderedMap S) (x : Text × S) → last_entry (front ++ x ∷ []) ≡ some x
unfolding last_entry
last_entry-append [] x = refl
last_entry-append (y ∷ []) x = refl
last_entry-append (y ∷ z ∷ front) x = last_entry-append (z ∷ front) x

starts_with_self : (s : Text) → starts_with s s ≡ true
starts_with_self s = subst (λ x. starts_with x s ≡ true) (append-nil s) (starts_with-append s [])

-- Where the mounts are in the order of their rules, a mounted rule is sent, whole, to its own
-- mount.
pub get_relevant_backend-mounted :
    {S : Type 0} (mounted : OrderedMap S) (rule : Text) (s : S)
    → IsSorted mounted
    → lookup rule mounted ≡ some s
    → get_relevant_backend mounted rule ≡ record { index = length rule; mount = some rule }
unfolding get_relevant_backend relevant_at
get_relevant_backend-mounted mounted rule s sorted found =
    let (front, e) = not_above-lookup rule s mounted sorted found in
    rw
      (
        e,
        last_entry-append front (rule, s),
        get_relevant_backend,
        relevant_at,
        starts_with_self rule,
      )
      (ground arith)

below_rule :
    (rule rest : Text)
    → relevant_at (rule ++ slash ∷ rest) rule
      ≡ record { index = length rule + 1; mount = some rule }
unfolding relevant_at
below_rule rule rest =
    rw (starts_with-append rule (slash ∷ rest), relevant_at, byte_at-append rule rest slash)
      (ground (arith, length-append rule (slash ∷ rest)))

-- No mounted rule lies between the rule and the label, above the one and not above the other.
abbrev pub NothingBetween : {S : Type 0} → Text → Text → OrderedMap S → Type 0
NothingBetween rule label [] = Unit
NothingBetween rule label ((r, _) ∷ m) =
    (text_lt rule r ≡ true → text_lt label r ≡ true) × NothingBetween rule label m

not_above-agree :
    {S : Type 0} (rule label : Text) (m : OrderedMap S)
    → text_lt rule label ≡ true
    → NothingBetween rule label m
    → not_above label m ≡ not_above rule m
unfolding not_above
not_above-agree rule label [] h n = refl
not_above-agree rule label ((r, s) ∷ m) h (n, ns) =
    ground (arith, not_above-agree rule label m h ns, text_lt_trans rule label r h)

-- Where the mounts are in the order of their rules, a label below a mounted rule is sent to that
-- mount, with the rule and the slash cut off, if no mounted rule lies between the two in that
-- order.
pub get_relevant_backend-below :
    {S : Type 0} (mounted : OrderedMap S) (rule rest : Text) (s : S)
    → IsSorted mounted
    → lookup rule mounted ≡ some s
    → NothingBetween rule (rule ++ slash ∷ rest) mounted
    → get_relevant_backend mounted (rule ++ slash ∷ rest)
      ≡ record { index = length rule + 1; mount = some rule }
unfolding get_relevant_backend
get_relevant_backend-below mounted rule rest s sorted found clear =
    let (front, e) = not_above-lookup rule s mounted sorted found in
    let agree =
      not_above-agree rule (rule ++ slash ∷ rest) mounted (text_lt-longer rule rest slash) clear in
    rw (agree ∙ e, last_entry-append front (rule, s), get_relevant_backend) (below_rule rule rest)

slash_above : (c : ℕ) (rest z : Text) → c < slash → text_lt (slash ∷ rest) (c ∷ z) ≡ false
unfolding text_lt
slash_above c rest z h = ground arith

slash_differs : (c : ℕ) (rest z : Text) → c < slash → starts_with (slash ∷ rest) (c ∷ z) ≡ false
unfolding starts_with
slash_differs c rest z h = ground arith

-- Mounts at r and at r followed by a byte less than a slash: every label below r is sent to the
-- root instead of to r.
pub get_relevant_backend-shadowed :
    {S : Type 0} (r z rest : Text) (c : ℕ) (s1 s2 : S)
    → c < slash
    → get_relevant_backend ((r, s1) ∷ (r ++ c ∷ z, s2) ∷ []) (r ++ slash ∷ rest) ≡ at_root
unfolding get_relevant_backend not_above last_entry relevant_at
get_relevant_backend-shadowed r z rest c s1 s2 h =
    rw
      (
        text_lt-append r rest slash,
        text_lt-append_both r (slash ∷ rest) (c ∷ z),
        get_relevant_backend,
        slash_above c rest z h,
        not_above,
        last_entry,
        relevant_at,
        starts_with-append_both r (slash ∷ rest) (c ∷ z),
        slash_differs c rest z h,
      )
      refl
