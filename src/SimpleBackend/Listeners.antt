-- ===== src/SimpleBackend/Listeners.antt =====
-- Registration: one entry for each name under a rule, in the order of registration, and no rule
-- without listeners.
use world_wide_anthropomorph.Base.{
  ◌≡◌, refl, true, false, Bool, Option, none, some, List, [], ◌∷◌, ◌++◌, arith, if◌then◌else◌,
  Option-cases, inl, inr,
}
use world_wide_anthropomorph.Text.{Text, text_eq, text_eq_iff, text_eq_refl}
use world_wide_anthropomorph.OrderedMap.{OrderedMap, lookup, insert}
use world_wide_anthropomorph.OrderedMap.Laws.{lookup-insert, lookup-erase}
use world_wide_anthropomorph.Backend.{NodeListenerCallback}
use world_wide_anthropomorph.SimpleBackend.{
  put_listeners, ListenerInfo, without_name, deregister, register,
}

abbrev pub Listeners : Type 0
Listeners = OrderedMap (List ListenerInfo)

-- The listeners of a rule, none where it has no entry.
abbrev pub at_rule : Option (List ListenerInfo) → List ListenerInfo
at_rule none = []
at_rule (some ls) = ls

-- An entry for the rule is there only if it has listeners.
abbrev pub as_entry : List ListenerInfo → Option (List ListenerInfo)
as_entry [] = none
as_entry (l ∷ ls) = some (l ∷ ls)

pub lookup-deregister_cases :
    (name rule r : Text) (m : Listeners) (ls : List ListenerInfo)
    → lookup rule m ≡ some ls
    → lookup r (deregister name rule m)
      ≡ (if text_eq rule r then as_entry (without_name name ls) else lookup r m)
unfolding deregister
lookup-deregister_cases name rule r m ls e = rw (e, deregister) (go (without_name name ls))
  where
    go :
        (rest : List ListenerInfo)
        → lookup r (put_listeners rule rest m)
          ≡ (if text_eq rule r then as_entry rest else lookup r m)
    go [] = lookup-erase r rule m
    go (l ∷ rest) = lookup-insert r rule (l ∷ rest) m

entry_at :
    (b : Bool) (ls : List ListenerInfo) (o : Option (List ListenerInfo))
    → at_rule (if b then as_entry ls else o) ≡ (if b then ls else at_rule o)
entry_at true [] o = refl
entry_at true (l ∷ ls) o = refl
entry_at false ls o = refl

-- deregisterNodeListener takes the name off the rule, and leaves the other rules alone.
pub lookup-deregister :
    (name rule r : Text) (m : Listeners)
    → at_rule (lookup r (deregister name rule m)) ≡ (
        if text_eq rule r
        then without_name name (at_rule (lookup rule m))
        else at_rule (lookup r m))
lookup-deregister name rule r m = elim (Option-cases (lookup rule m)) [
  | inl e ↦
      rw e
        (unfold deregister without_name in rw (e, deregister) (ground (arith, text_eq_iff rule r)))
  | inr (ls, e) ↦
      rw (lookup-deregister_cases name rule r m ls e, e)
        (entry_at (text_eq rule r) (without_name name ls) (lookup r m))
]

pub register-insert :
    (name rule : Text) (child_notify : Bool) (callback : NodeListenerCallback) (m : Listeners)
    → register name rule child_notify callback m
      ≡ insert rule
          (at_rule (lookup rule (deregister name rule m))
            ++ record { name = name; child_notify = child_notify; callback = callback } ∷ [])
          (deregister name rule m)
unfolding register
register-insert name rule child_notify callback m =
    elim (Option-cases (lookup rule (deregister name rule m))) [
      | inl e ↦ rw (e, register)
      | inr (ls, e) ↦ rw (e, register)
    ]

at_rule_if :
    (b : Bool) (ls old now : List ListenerInfo) (o : Option (List ListenerInfo))
    → (b ≡ false → at_rule o ≡ now)
    → at_rule (if b then some ls else o) ≡ (if b then ls else now)
at_rule_if true ls old now o h = refl
at_rule_if false ls old now o h = h refl

-- registerNodeListener puts the listener at the end of the rule, in place of one of the same name,
-- and leaves the other rules alone.
pub lookup-register :
    (name rule r : Text) (child_notify : Bool) (callback : NodeListenerCallback) (m : Listeners)
    → at_rule (lookup r (register name rule child_notify callback m)) ≡ (
        if text_eq rule r
        then without_name name (at_rule (lookup rule m))
          ++ record { name = name; child_notify = child_notify; callback = callback } ∷ []
        else at_rule (lookup r m))
lookup-register name rule r child_notify callback m =
    rw (register-insert, lookup-insert, lookup-deregister name rule rule m, text_eq_refl rule)
      (at_rule_if (text_eq rule r) _ [] (at_rule (lookup r m)) (lookup r (deregister name rule m))
        (λ other. rw (lookup-deregister name rule r m, other)))
