-- ===== src/SimpleBackend/ListenersValid.antt =====
-- The invariant of the listener map, and that registration keeps it.
use world_wide_anthropomorph.Base.{
  sym, subst, ◌≡◌, ◌≢◌, ◌∙◌, ap, true, false, Bool, Option, some, List, [], ◌∷◌, ◌++◌, arith, All,
  if◌then◌else◌, All-append, Option-cases, Bool-cases, inl, inr,
}
use world_wide_anthropomorph.Text.{Text, text_eq, text_eq_iff}
use world_wide_anthropomorph.OrderedMap.{lookup}
use world_wide_anthropomorph.OrderedMap.Laws.{lookup-insert}
use world_wide_anthropomorph.Backend.{NodeListenerCallback}
use world_wide_anthropomorph.SimpleBackend.{ListenerInfo, without_name, deregister, register}
use world_wide_anthropomorph.SimpleBackend.Listeners.{
  Listeners, at_rule, as_entry, lookup-deregister, lookup-deregister_cases, lookup-register,
  register-insert,
}

-- No two listeners have the same name.
abbrev pub UniqueNames : List ListenerInfo → Type 0
UniqueNames [] = Unit
UniqueNames (l ∷ ls) = All (λ k. text_eq k.name l.name ≡ false) ls × UniqueNames ls

-- Every rule that has an entry has listeners, with different names.
pub record IsValid (m : Listeners) : Type 0 where
  pub filled : (r : Text) → lookup r m ≢ some []
  pub unique : (r : Text) → UniqueNames (at_rule (lookup r m))

All-without_name :
    (P : ListenerInfo → Type 0) (name : Text) (ls : List ListenerInfo)
    → All P ls
    → All P (without_name name ls)
unfolding without_name
All-without_name P name [] h = tt
All-without_name P name (l ∷ ls) (h, hs) = elim (Bool-cases (text_eq l.name name)) [
  | inl e ↦ rw e (All-without_name P name ls hs)
  | inr e ↦ rw e (h, All-without_name P name ls hs)
]

without_name-UniqueNames :
    (name : Text) (ls : List ListenerInfo) → UniqueNames ls → UniqueNames (without_name name ls)
unfolding without_name
without_name-UniqueNames name [] u = tt
without_name-UniqueNames name (l ∷ ls) (h, u) = elim (Bool-cases (text_eq l.name name)) [
  | inl e ↦ rw e (without_name-UniqueNames name ls u)
  | inr e ↦ rw e (All-without_name _ name ls h, without_name-UniqueNames name ls u)
]

without_name-absent :
    (name : Text) (ls : List ListenerInfo)
    → All (λ k. text_eq k.name name ≡ false) (without_name name ls)
unfolding without_name
without_name-absent name [] = tt
without_name-absent name (l ∷ ls) = elim (Bool-cases (text_eq l.name name)) [
  | inl e ↦ rw e (without_name-absent name ls)
  | inr e ↦ rw e (e, without_name-absent name ls)
]

UniqueNames-append :
    (ls : List ListenerInfo) (new : ListenerInfo)
    → UniqueNames ls
    → All (λ k. text_eq k.name new.name ≡ false) ls
    → UniqueNames (ls ++ new ∷ [])
UniqueNames-append [] new u h = (tt, tt)
UniqueNames-append (l ∷ ls) new (f, u) (h, hs) = (
  All-append _ ls (new ∷ []) f
      (ground (arith, text_eq_iff l.name new.name, text_eq_iff new.name l.name), tt),
  UniqueNames-append ls new u hs,
)

as_entry_filled : (ls : List ListenerInfo) → as_entry ls ≢ some []
as_entry_filled [] h = cc
as_entry_filled (l ∷ ls) h = cc

append_filled : (ls : List ListenerInfo) (l : ListenerInfo) → some (ls ++ l ∷ []) ≢ some []
append_filled [] l h = cc
append_filled (k ∷ ls) l h = cc

filled_if :
    (b : Bool) (o p : Option (List ListenerInfo))
    → o ≢ some []
    → p ≢ some []
    → (if b then o else p) ≢ some []
filled_if true o p ho hp = ho
filled_if false o p ho hp = hp

UniqueNames-if :
    (b : Bool) (ls ks : List ListenerInfo)
    → UniqueNames ls
    → UniqueNames ks
    → UniqueNames (if b then ls else ks)
UniqueNames-if true ls ks h k = h
UniqueNames-if false ls ks h k = k

deregister-filled :
    (name rule r : Text) (m : Listeners) → IsValid m → lookup r (deregister name rule m) ≢ some []
unfolding deregister
deregister-filled name rule r m v = elim (Option-cases (lookup rule m)) [
  | inl e ↦ rw (e, deregister) (v.filled r)
  | inr (ls, e) ↦
      subst (λ o. o ≢ some []) (sym (lookup-deregister_cases name rule r m ls e))
        (filled_if (text_eq rule r) _ _ (as_entry_filled (without_name name ls)) (v.filled r))
]

-- deregisterNodeListener keeps the invariant: no rule without listeners, and no name twice.
pub deregister-IsValid :
    (name rule : Text) (m : Listeners) → IsValid m → IsValid (deregister name rule m)
deregister-IsValid name rule m v = record {
  filled = λ r. deregister-filled name rule r m v;
  unique = λ r. subst UniqueNames (sym (lookup-deregister name rule r m)) (
      UniqueNames-if (text_eq rule r) _ _
        (without_name-UniqueNames name (at_rule (lookup rule m)) (v.unique rule)) (v.unique r));
}

-- registerNodeListener keeps the invariant: no rule without listeners, and no name twice.
pub register-IsValid :
    (name rule : Text) (child_notify : Bool) (callback : NodeListenerCallback) (m : Listeners)
    → IsValid m
    → IsValid (register name rule child_notify callback m)
register-IsValid name rule child_notify callback m v = record {
  filled = λ r.
      subst (λ o. o ≢ some [])
        (sym (
          ap (lookup r) (register-insert name rule child_notify callback m)
          ∙ lookup-insert r rule _ _))
        (filled_if (text_eq rule r) _ _ (append_filled _ _) (deregister-filled name rule r m v));
  unique = λ r. subst UniqueNames (sym (lookup-register name rule r child_notify callback m)) (
      UniqueNames-if (text_eq rule r) _ _
        (UniqueNames-append (without_name name (at_rule (lookup rule m))) _
          (without_name-UniqueNames name (at_rule (lookup rule m)) (v.unique rule))
          (without_name-absent name (at_rule (lookup rule m))))
        (v.unique r));
}
