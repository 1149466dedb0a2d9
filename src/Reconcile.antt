-- ===== src/Reconcile.antt =====
-- What the reconcilers share: their result, and the small decisions on errors.
use kai_operator.Base.{String, ℕ, Option, none, some, if◌then◌else◌}
use kai_operator.Api.Kube.{Quantity}
use kai_operator.Client.{Error, is_not_found, Result, ok, panic, Client, Action, pure, fail}

-- `ctrl.Result`, by the seconds of its `RequeueAfter`; the empty result is `none`. The result that
-- goes with an error is left out: controller-runtime does not look at it.
abbrev pub Requeue : Type 0
Requeue = Option ℕ

-- `RequeueDelay`, 30 seconds in each controller.
abbrev pub requeue_delay : ℕ
requeue_delay = 30

module _ {W : Type 0} where
  abbrev pub done : Action W Requeue
  done = pure none

  abbrev pub again : Action W Requeue
  again = pure (some requeue_delay)

  -- `if err != nil && !errors.IsNotFound(err) { return err }`
  abbrev pub unless_not_found : {A : Type 0} → A → Error → Action W A
  unless_not_found a e = if is_not_found e then pure a else fail e

  -- `resource.MustParse`, which panics on a text that is no quantity.
  abbrev pub must_parse : Client W → String → Result Quantity
  must_parse c text =
      if c.is_quantity text then ok (record { text = text }) else panic "cannot parse quantity"
