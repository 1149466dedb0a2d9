-- ===== src/Sdk/Requests.antt =====
-- The calls that the clients make (sdk/devtask.go and the clients of the other kinds, and sdk/client.go).
use kai_operator.Base.{◌≡◌, refl, String, true, false, List, [], ◌∷◌, arith, eq_iff}
use kai_operator.Base.Lists.{All, any}
use kai_operator.Client.{Result, Event, listed, Action, run_at}
use kai_operator.Client.Calls.{calls, Task}
use kai_operator.Client.Keeps.{Emits, emits_rules, emits_calls}
use kai_operator.Client.Order.{After, is_create, is_update, is_missing}
use kai_operator.Sdk.Client.{
  TaskClient, Versioned, Retry, key, get, list, create_or_patch, modify_once, update_with_retry,
}
use kai_operator.Sdk.Kinds.{Tasks, set_namespace, list_all_tasks}

module _ {W A : Type 0} ⦃k : Task A⦄ (c : TaskClient W A) where
  -- A task is created only after a read found none of its name in the namespace of the client.
  pub created_if_missing :
      ⦃v : Versioned A⦄ (task : A) (modify : A → A) (w : W)
      → After is_create
          (is_missing (key c (k.object.meta task).name))
          (create_or_patch c task modify (run_at w)).1.log
  unfolding create_or_patch calls
  created_if_missing task modify w = ground (
    arith,
    eq_iff (k.object.meta task).name (k.object.meta task).name,
    eq_iff c.namespace c.namespace,
  )

  -- A call that is no update.
  abbrev pub NoUpdate : Event → Type 0
  NoUpdate e = is_update e ≡ false

  none_updated : (l : List Event) → All NoUpdate l → any is_update l ≡ false
  none_updated [] h = refl
  none_updated (e ∷ l) h = ground (arith, none_updated l h.1)

  modify_once-NoUpdate :
      (name : String) (modify : A → Result A) → Emits NoUpdate (modify_once c name modify)
  unfolding modify_once get
  modify_once-NoUpdate name modify = search (emits_rules, emits_calls) depth 12

  -- Where a retry only makes the calls of what it repeats, nothing is ever updated: the task that is
  -- modified is dropped.
  pub retry_never_updates :
      (retry : Retry W) (name : String) (modify : A → Result A) (w : W)
      → ((m : Action W (Unit {0})) → Emits NoUpdate m → Emits NoUpdate (retry m))
      → any is_update (update_with_retry c retry name modify (run_at w)).1.log ≡ false
  unfolding update_with_retry
  retry_never_updates retry name modify w h =
      none_updated _ ((h _ (modify_once-NoUpdate name modify)).at (run_at w) tt)

-- A call that lists the objects of a namespace.
abbrev pub ListsIn : String → Event → Type 0
ListsIn ns (listed _ n _ _) = n ≡ ns
ListsIn ns _ = true ≡ false

module _ {W : Type 0} where
  list-ListsIn :
      {A : Type 0} ⦃k : Task A⦄ (c : TaskClient W A) (ns : String)
      → c.namespace ≡ ns
      → Emits (ListsIn ns) (list c)
  unfolding list calls
  list-ListsIn c ns e = record { at = λ s h. (e, h) }

  -- After the namespace is set, the listing of all tasks reads that namespace, for each kind, and
  -- makes no other call.
  pub listed_in_namespace :
      (c : Tasks W) (ns : String) (w : W)
      → All (ListsIn ns) (list_all_tasks (set_namespace c ns) (run_at w)).1.log
  unfolding list_all_tasks set_namespace
  listed_in_namespace c ns w = whole.at (run_at w) tt
    where
      whole : Emits (ListsIn ns) (list_all_tasks (set_namespace c ns))
      whole = search (emits_rules, list-ListsIn) depth 20
