-- ===== src/Bridge/Lines.antt =====
-- From the bridge that writes a stream to the bridge that reads it.
use agents_protocol.Prelude.{
  ℕ, ◌≤◌, ◌≡◌, refl, ap, ◌∙◌, false, Option, none, some, List, [], ◌∷◌, ◌++◌, eqb, length,
  length-append, map, append_assoc, arith,
}
use agents_protocol.Json.{Fields}
use agents_protocol.Sorting.{All}
use agents_protocol.Protocol.{AgentMessage}
use agents_protocol.Bridge.{BaseAdapter, BridgeAgent, process_message, handle_external_message}
use agents_protocol.Channel.Stream.{Bytes}
use agents_protocol.Channel.Http.{push}
use agents_protocol.Bridge.Stream.{
  send_to_external, lines_of, is_long, and_then, outgoing, process_all, read, round, handle_lines,
  external_message_loop,
}

pub lines_of-line :
    (l rest : Bytes)
    → All (λ b. eqb b 10 ≡ false) l
    → lines_of (l ++ 10 ∷ rest) ≡ (l ++ 10 ∷ []) ∷ lines_of rest
unfolding lines_of push
lines_of-line [] rest h = refl
lines_of-line (b ∷ l) rest h = let ih = lines_of-line l rest h.1 in ground (arith, ih, h.0)

-- What the other side makes of a text that was written by `dumps`, `wire` being what it then has: the
-- text is on one line, not longer than the limit, and can be read.
pub record IsWire {E : Type 0} (dumps : Fields → Bytes) (loads : Bytes → Option E) (limit : ℕ)
    (wire : Fields → E) (message : Fields) : Type 0 where
  pub one_line : All (λ b. eqb b 10 ≡ false) (dumps message)
  pub fits : length (dumps message) ≤ limit
  pub reads : loads (send_to_external dumps message) ≡ some (wire message)

-- The external messages, one after the other, as `handle_external_message` is called with them.
unfoldable pub handle_all :
    {E : Type 0} → BaseAdapter E → List E → BridgeAgent → List AgentMessage × BridgeAgent
handle_all adapter [] b = ([], b)
handle_all adapter (x ∷ xs) b =
    let out = handle_external_message adapter x b in and_then out.0 (handle_all adapter xs out.1)

-- What the messages are for the external system; one that the adapter does not translate is left out.
unfoldable pub translated : {E : Type 0} → BaseAdapter E → List AgentMessage → List Fields
translated adapter [] = []
translated adapter (m ∷ ms) =
    let rest = translated adapter ms in
    elim (adapter.from_protocol m) [ none ↦ rest | some f ↦ f ∷ rest ]

module _ (dumps : Fields → Bytes) where
  unfoldable written : List Fields → Bytes
  written [] = []
  written (f ∷ fs) = send_to_external dumps f ++ written fs

  outgoing-written :
      {F : Type 0} (adapter : BaseAdapter F) (o : Option Fields) (fs : List Fields)
      → outgoing adapter dumps o ++ written fs ≡ written (elim o [ none ↦ fs | some f ↦ f ∷ fs ])
  unfolding outgoing written
  outgoing-written adapter none fs = refl
  outgoing-written adapter (some f) fs = refl

  process_all-written :
      {F : Type 0} (adapter : BaseAdapter F) (ms : List AgentMessage) (b : BridgeAgent)
      → (process_all adapter dumps ms b).0 ≡ written (translated adapter ms)
  unfolding process_all process_message written translated
  process_all-written adapter [] b = refl
  process_all-written adapter (m ∷ ms) b =
      ap (λ x. outgoing adapter dumps (adapter.from_protocol m) ++ x)
        (process_all-written adapter ms (process_message adapter m b).1)
      ∙ outgoing-written adapter (adapter.from_protocol m) (translated adapter ms)

  module _ {E : Type 0} (adapter : BaseAdapter E) (loads : Bytes → Option E) (limit : ℕ)
      (wire : Fields → E) where
    lines_of-written :
        (fs : List Fields)
        → All (IsWire dumps loads limit wire) fs
        → lines_of (written fs) ≡ map (send_to_external dumps) fs
    unfolding written
    lines_of-written [] h = unfold lines_of in refl
    lines_of-written (f ∷ fs) h =
        ap lines_of (append_assoc (dumps f) (10 ∷ []) (written fs))
        ∙ (lines_of-line (dumps f) (written fs) h.0.one_line
            ∙ ap (λ x. send_to_external dumps f ∷ x) (lines_of-written fs h.1))

    read-wire :
        (f : Fields)
        → IsWire dumps loads limit wire f
        → read adapter loads limit (send_to_external dumps f) ≡ some (wire f)
    unfolding read
    read-wire f h =
        let short : is_long limit (send_to_external dumps f) ≡ false =
          ground (arith, length-append (dumps f) (10 ∷ []), h.fits) in
        rw short h.reads

    pub handle_lines-wire :
        (fs : List Fields) (b : BridgeAgent)
        → All (IsWire dumps loads limit wire) fs
        → handle_lines adapter loads limit (map (send_to_external dumps) fs) b
          ≡ handle_all adapter (map wire fs) b
    unfolding handle_lines handle_all round
    handle_lines-wire [] b h = refl
    handle_lines-wire (f ∷ fs) b h =
        let out = handle_external_message adapter (wire f) b in
        let ih = handle_lines-wire fs out.1 h.1 in rw (read-wire f h.0) (ap (and_then out.0) ih)

    -- Let a bridge process messages, and let another bridge read the stream that it writes, where each text
    -- that is written is on one line, not longer than the reader's limit, and can be read. Then the
    -- other bridge handles what was written for the messages, each once, in their order; a message
    -- that the first bridge's adapter does not translate is left out.
    pub external_message_loop-process_all :
        {F : Type 0} (writer : BaseAdapter F) (ms : List AgentMessage) (a b : BridgeAgent)
        → All (IsWire dumps loads limit wire) (translated writer ms)
        → external_message_loop adapter loads limit (process_all writer dumps ms a).0 b
          ≡ handle_all adapter (map wire (translated writer ms)) b
    unfolding external_message_loop
    external_message_loop-process_all writer ms a b h =
        let e =
          ap lines_of (process_all-written writer ms a)
          ∙ lines_of-written (translated writer ms) h in
        ap (λ x. handle_lines adapter loads limit x b) e
        ∙ handle_lines-wire (translated writer ms) b h
