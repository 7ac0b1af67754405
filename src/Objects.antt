-- ===== src/Objects.antt =====
-- Message objects. The broker, the store and the inboxes hold references to the same `AgentMessage`
-- object, and a write through one of them is seen through the others; so messages live on a heap.
use agents_protocol.Prelude.{ℕ, ◌+◌, String, ◌≡◌, refl, some, eqb, if◌then◌else◌}
use agents_protocol.Protocol.{AgentMessage, MessageStatus}

abbrev pub Ref : Type 0
Ref = ℕ

-- The cells from `next` on are not in use.
pub record Heap : Type 0 where
  pub next : Ref
  pub cell : Ref → AgentMessage

unfoldable pub write : Ref → AgentMessage → Heap → Heap
write r m h = record h { cell = λ q. if eqb r q then m else h.cell q }

-- message.status = status
unfoldable pub set_status : Ref → MessageStatus → Heap → Heap
unfolding write
set_status r status h = write r (record (h.cell r) { status = status }) h

-- message.model_copy(deep=True, update={"recipient_id": recipient}): a new object
unfoldable pub copy_to : Ref → String → Heap → Ref × Heap
unfolding write
copy_to r recipient h =
    let h' : Heap = record h { next = h.next + 1 } in
    (h.next, write h.next (record (h.cell r) { recipient_id = some recipient }) h')

pub cell-set_status :
    (r q : Ref) (status : MessageStatus) (h : Heap)
    → (set_status r status h).cell q
      ≡ (if eqb r q then record (h.cell r) { status = status } else h.cell q)
unfolding set_status
cell-set_status r q status h = refl
