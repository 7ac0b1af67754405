-- ===== src/Broker/Keeping.antt =====
-- What every part of a send keeps, a send keeps, however it ends.
use agents_protocol.Prelude.{
  String, Bool, true, false, Option, none, some, List, [], ◌∷◌, if◌then◌else◌,
}
use agents_protocol.Dict
use agents_protocol.Objects.{Ref}
use agents_protocol.Extensions.{ValidationRule}
use agents_protocol.Router.{route}
use agents_protocol.Security.{
  Verdict, status, type_error, success, unauthorized, expired, invalid_signature,
}
use agents_protocol.Broker.World.{World, Act, Outcome, after, fields}
use agents_protocol.Broker.Delivery.{broadcast, audience, deliver_copies, deliver_locally}
use agents_protocol.Broker.Sending.{
  ClusterLink, unregistered, forwarded, send_routed, send_undirected, send_local, hand_over,
  send_peer, send_remote, send_elsewhere, dispatch, accept, checked, validated, do_send, is_direct,
}
use agents_protocol.Broker.Steps.{IsStable, deliver_locally-Keeps, deliver_copies-Keeps, bind-Keeps}

module _ {C : Type 0} {R : World C → World C → Type 0} (stable : IsStable R) where
  -- Every run of the method is in the relation.
  abbrev Keeps : {A : Type 0} → Act C A → Type 0
  Keeps m = (w : World C) → R w (after (m w))

  if-Keeps :
      {A : Type 0} (b : Bool) (m n : Act C A) → Keeps m → Keeps n → Keeps (if b then m else n)
  if-Keeps true m n h k = h
  if-Keeps false m n h k = k

  either-Keeps :
      {A : Type 0} {w : World C} (b : Bool) (o p : Outcome C A)
      → R w (after o)
      → R w (after p)
      → R w (after (if b then o else p))
  either-Keeps true o p h k = h
  either-Keeps false o p h k = k

  send_routed-Keeps : (rids : List String) (r : Ref) → Keeps (send_routed {C = C} rids r)
  unfolding send_routed
  send_routed-Keeps rids r w =
      bind-Keeps stable (deliver_copies rids r w) _ (deliver_copies-Keeps stable rids r w)
        (λ u v. stable.aside v _ _ _ _ _)

  send_undirected-Keeps : (rids : List String) (r : Ref) → Keeps (send_undirected {C = C} rids r)
  unfolding send_undirected
  send_undirected-Keeps [] r w =
      bind-Keeps stable (broadcast r w) _
        (unfold broadcast in deliver_copies-Keeps stable (audience r w) r w)
        (λ u v. stable.aside v _ _ _ _ _)
  send_undirected-Keeps (a ∷ rids) r w = send_routed-Keeps (a ∷ rids) r w

  send_local-Keeps : (rid : String) (r : Ref) → Keeps (send_local {C = C} rid r)
  unfolding send_local
  send_local-Keeps rid r w =
      bind-Keeps stable (deliver_locally rid r w) _ (deliver_locally-Keeps stable rid r w)
        (λ b v. stable.same v)

  unregistered-Keeps : (rid : String) (r : Ref) → Keeps (unregistered {C = C} rid r)
  unfolding unregistered
  unregistered-Keeps rid r w = stable.aside w _ _ _ _ _

  forwarded-Keeps : (b : Bool) (r : Ref) → Keeps (forwarded {C = C} b r)
  unfolding forwarded
  forwarded-Keeps true r w = stable.aside w _ _ _ _ _
  forwarded-Keeps false r w = stable.aside w _ _ _ _ _

  hand_over-Keeps : (o : Option (Bool × C)) (rid : String) (r : Ref) → Keeps (hand_over o rid r)
  unfolding hand_over
  hand_over-Keeps none rid r w = unregistered-Keeps rid r w
  hand_over-Keeps (some (b, c)) rid r w =
      stable.next (stable.aside w w.heap w.store (some c) w.metrics w.readings)
        (forwarded-Keeps b r (record w { cluster_manager = some c }))

module _ {C : Type 0} {R : World C → World C → Type 0} (stable : IsStable R)
    (link : ClusterLink C) where
  send_peer-Keeps : (o : Option C) (rid : String) (r : Ref) → Keeps stable (send_peer link o rid r)
  unfolding send_peer
  send_peer-Keeps none rid r w = unregistered-Keeps stable rid r w
  send_peer-Keeps (some c) rid r w =
      hand_over-Keeps stable (link.forward rid (fields r w) c) rid r w

  send_remote-Keeps : (rid : String) (r : Ref) → Keeps stable (send_remote link rid r)
  unfolding send_remote
  send_remote-Keeps rid r w = send_peer-Keeps w.cluster_manager rid r w

  send_elsewhere-Keeps : (rid : String) (r : Ref) → Keeps stable (send_elsewhere link rid r)
  unfolding send_elsewhere
  send_elsewhere-Keeps rid r w =
      bind-Keeps stable (deliver_locally rid r w) _ (deliver_locally-Keeps stable rid r w)
        (λ b. if-Keeps stable b _ _ (λ v. stable.same v) (send_remote-Keeps rid r))

  dispatch-Keeps : (o : Option String) (r : Ref) → Keeps stable (dispatch link o r)
  unfolding dispatch
  dispatch-Keeps none r w = send_undirected-Keeps stable _ r w
  dispatch-Keeps (some rid) r w =
      let rids = route w.router (fields r w) (Dict.keys w.agents) in
      either-Keeps stable (Dict.has rid w.agents) _ _ (send_local-Keeps stable rid r w) (
        either-Keeps stable (is_direct rid rids) _ _ (send_elsewhere-Keeps rid r w)
          (send_routed-Keeps stable rids r w))

  checked-Keeps : (v : Verdict) (r : Ref) → Keeps stable (checked link v r)
  unfolding checked
  checked-Keeps type_error r w = stable.same w
  checked-Keeps (status success) r w =
      unfold accept in stable.next (stable.aside w _ _ _ _ _) (dispatch-Keeps _ r _)
  checked-Keeps (status unauthorized) r w = stable.aside w _ _ _ _ _
  checked-Keeps (status expired) r w = stable.aside w _ _ _ _ _
  checked-Keeps (status invalid_signature) r w = stable.aside w _ _ _ _ _

  validated-Keeps : (o : Option String) (r : Ref) → Keeps stable (validated link o r)
  unfolding validated
  validated-Keeps none r w = checked-Keeps _ r w
  validated-Keeps (some error) r w = stable.aside w _ _ _ _ _

  -- However `_do_send` ends, by a return, a raise or a wait for room.
  pub do_send-Keeps :
      (rules : List ValidationRule) (r : Ref) (w : World C) → R w (after (do_send link rules r w))
  unfolding do_send
  do_send-Keeps rules r w = stable.next (stable.aside w _ _ _ _ _) (validated-Keeps _ r _)
