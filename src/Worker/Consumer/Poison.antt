-- ===== src/Worker/Consumer/Poison.antt =====
-- A body that is JSON but no object, such as `[1]` or `null`.
use concept_microservice.Prelude.{Bool, true, false, ◌≡◌, [], ◌∷◌, arith, if◌then◌else◌}
use concept_microservice.Prelude.Effect.{ok, raise}
use concept_microservice.Values.{Value, obj, truthy}
use concept_microservice.Worker.Guard.{Guard}
use concept_microservice.Worker.Consumer.{
  Error, other, Message, requeued, World, Env, handle_delivery,
}

abbrev pub is_object : Value → Bool
is_object (obj fs) = true
is_object v = false

-- If no call of the broker fails, such a delivery is neither dead-lettered nor acked. If the value
-- is false in Python it is requeued, to come back at once; if it is true the exception leaves the
-- consumer and the delivery is neither acked nor requeued.
pub non_object_never_acked :
    (g : Guard Error) (env : Env) (message : Message) (v : Value) (s : World g.State)
    → env.loads message.body ≡ ok v
    → is_object v ≡ false
    → s.faults ≡ []
    → handle_delivery g env message s ≡ (
        if truthy v
        then (raise (other "AttributeError"), s)
        else (ok tt, record s { trace = requeued ∷ s.trace }))
unfolding handle_delivery
non_object_never_acked g env message v s parsed shape calm = ground (arith, parsed)
