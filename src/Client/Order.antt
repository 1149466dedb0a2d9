-- ===== src/Client/Order.antt =====
-- Tests on the calls of a run, and the order in which they were made.
use kai_operator.Base.{Bool, true, false, List, [], ◌∷◌, ◌≡◌, ◌==◌, ◌&&◌}
use kai_operator.Base.Lists.{any}
use kai_operator.Api.Meta.{Key}
use kai_operator.Client.{
  Status, success, failure, not_found, Event, created, updated, status_updated, deleted, got,
}

-- Each call that passes `p` was made after one that passes `q`. The newest call is the first.
abbrev pub After : (Event → Bool) → (Event → Bool) → List Event → Type 0
After p q [] = Unit
After p q (e ∷ l) = (p e ≡ true → any q l ≡ true) × After p q l

abbrev pub same_key : Key → Key → Bool
same_key a b = a.name == b.name && a.namespace == b.namespace

-- An update of an object, its status apart.
abbrev pub is_update : Event → Bool
is_update (updated _ _ _) = true
is_update _ = false

abbrev pub is_status_update : Event → Bool
is_status_update (status_updated _ _ _ _) = true
is_status_update _ = false

abbrev pub is_create : Event → Bool
is_create (created _ _ _) = true
is_create _ = false

-- The server took the object away, or had none.
abbrev pub is_gone_status : Status → Bool
is_gone_status success = true
is_gone_status (failure not_found) = true
is_gone_status _ = false

abbrev pub is_delete : Event → Bool
is_delete (deleted _ _ _) = true
is_delete _ = false

-- A deletion of the object at a key, which the server carried out or had no object for.
abbrev pub is_gone : Key → Event → Bool
is_gone k (deleted _ j x) = same_key k j && is_gone_status x
is_gone k _ = false

-- A read that found nothing at a key.
abbrev pub is_missing : Key → Event → Bool
is_missing k (got _ j (failure not_found)) = same_key k j
is_missing k _ = false
