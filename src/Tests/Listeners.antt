-- ===== src/Tests/Listeners.antt =====
-- Tests of SimpleBackend and its listeners, and examples for their theorems.
use world_wide_anthropomorph.Text.{find_char, text_lt, Text, bytes, text_eq}
use world_wide_anthropomorph.OrderedMap.{insert, lookup}
use world_wide_anthropomorph.Base.{
  ◌≡◌, ◌++◌, refl, true, false, Option, none, List, [], ◌∷◌, ok, err, All, Result, subst, ap,
}
use world_wide_anthropomorph.OrderedMap.Sorted.{IsSorted}
use world_wide_anthropomorph.TreeNode.{TreeNode}
use world_wide_anthropomorph.Backend.{Call, NodeListenerCallback}
use world_wide_anthropomorph.SimpleBackend.{SimpleBackend, ListenerInfo, notify_listeners, register}
use world_wide_anthropomorph.SimpleBackend.Listeners.{Listeners}
use world_wide_anthropomorph.SimpleBackend.ListenersValid.{IsValid, register-IsValid}
use world_wide_anthropomorph.SimpleBackend.Notify.{TellsAll}
use world_wide_anthropomorph.SimpleBackend.NotifyExact.{notify_listeners-exact, all_told}
use world_wide_anthropomorph.Tests.{three_backend}

-- A callback that is told as it is.
abbrev tell : NodeListenerCallback
tell label node = ok (record { listener = bytes "l"; label = label; node = node } ∷ [])

abbrev watcher : ListenerInfo
watcher = record { name = bytes "l"; child_notify = true; callback = tell }

-- Listeners at a and at a/b.
abbrev two_rules : Listeners
two_rules = (bytes "a", watcher ∷ []) ∷ (bytes "a/b", watcher ∷ []) ∷ []

abbrev watched : SimpleBackend
watched = record three_backend { node_listeners = two_rules }

register_two :
    register (bytes "l") (bytes "a/b") true tell ((bytes "a", watcher ∷ []) ∷ []) ≡ two_rules
unfolding register lookup text_eq insert text_lt
register_two = refl

none-IsValid : IsValid []
unfolding lookup
none-IsValid = record { filled = λ r h. cc h; unique = λ r. tt }

one-IsValid : IsValid (register (bytes "l") (bytes "a") true tell [])
one-IsValid = register-IsValid (bytes "l") (bytes "a") true tell [] none-IsValid

register-IsValid_example :
    IsValid (
      register (bytes "k") (bytes "a/b") false tell (register (bytes "l") (bytes "a") true tell []))
register-IsValid_example =
    register-IsValid (bytes "k") (bytes "a/b") false tell
      (register (bytes "l") (bytes "a") true tell []) one-IsValid

-- The name of the listener that is told.
abbrev IsWatcher : Call → Type 0
IsWatcher c = c.listener ≡ bytes "l"

abbrev told_calls : Result (List Call) → List Call
told_calls (ok told) = told
told_calls (err _) = []

told_by-IsWatcher :
    (label : Text) (node : Option TreeNode) (told : List Call)
    → tell label node ≡ ok told
    → All IsWatcher told
told_by-IsWatcher label _ told h = subst (All IsWatcher) (ap told_calls h) (refl, tt)

two_tell : TellsAll (bytes "a/b") none IsWatcher two_rules
two_tell = (
  λ _. ((λ _. told_by-IsWatcher (bytes "a/b") none), tt),
  ((λ _. ((λ _. told_by-IsWatcher (bytes "a/b") none), tt)), tt),
)

two-IsSorted : IsSorted two_rules
unfolding text_lt
two-IsSorted = ((refl, tt), (tt, tt))

abbrev told_of : Text → ListenerInfo → List Call
told_of label l = record { listener = bytes "l"; label = label; node = none } ∷ []

notify_listeners-exact_example :
    (more : List Call) × ((notify_listeners (bytes "a/b") none watched).1.calls
      ≡ [] ++ (all_told (bytes "a/b") none (told_of (bytes "a/b")) (watcher ∷ []) ++ more))
unfolding lookup find_char text_eq
notify_listeners-exact_example =
    notify_listeners-exact (bytes "a/b") none watched (watcher ∷ []) (told_of (bytes "a/b")) refl
      two-IsSorted refl (refl, tt)
