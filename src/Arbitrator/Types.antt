-- ===== src/Arbitrator/Types.antt =====
-- crates/nf-arbitrator/src/types.rs, state.rs: events, proofs, the sink's interface as a trace of
-- calls, and the state tags.
use hft_proj.Prelude.{ℕ, Bool, Option, List, [], ◌∷◌, ◌++◌, ◌==◌, Bytes}
use hft_proj.Protocol.Packet.{Triple}

pub data State : Type 0 where
  init contig gap eos_persist ended dead : State

-- The `repr(u8)` tag, by which states are compared.
abbrev pub tag : State → ℕ
tag init = 0
tag contig = 1
tag gap = 2
tag eos_persist = 3
tag ended = 4
tag dead = 5

abbrev pub state_eq : State → State → Bool
state_eq a b = tag a == tag b

pub record LiveFeedProof : Type 0 where
  pub gen : ℕ

pub data DeadReason : Type 0 where
  retry_exhausted tcp_unreachable sealed : DeadReason

pub data Event : Type 0 where
  gap_opened : (from : ℕ) (ahead : Option ℕ) (gen : ℕ) → Event
  re_anchored : (gen at : ℕ) → Event
  session_boundary : (prev next : Bytes) (gen : ℕ) → Event
  end_of_session : (session : Bytes) (final_wm announced_next : ℕ) → Event
  session_dead : (reason : DeadReason) (last_wm : ℕ) → Event

pub data SequencerMutation : Type 0 where
  no_mutation disable_clear_on_advance off_by_one_clamp drop_staged_at_eos : SequencerMutation

pub record RecoveryIntent : Type 0 where
  pub from : ℕ
  pub to_excl : ℕ

pub record SpanRec : Type 0 where
  pub first_seq : ℕ
  pub count : ℕ
  pub body : Bytes
  pub blocks : List Triple

-- One call that the sequencer makes on its sink.
pub data Call : Type 0 where
  on_msg : LiveFeedProof → (seq : ℕ) (msg : Bytes) → Call
  on_event : Event → Call
  on_span : LiveFeedProof → SpanRec → Call
  on_span_batch : LiveFeedProof → List SpanRec → Call

-- A computation that calls the sink: its value, and its calls in order.
abbrev pub Log {ℓ} : Type ℓ → Type ℓ
Log A = A × List Call

infixl 5 ◌>>=◌
abbrev pub ◌>>=◌ {ℓ κ} : {A : Type ℓ} {B : Type κ} → Log A → (A → Log B) → Log B
m >>= f = ((f m.0).0, m.1 ++ (f m.0).1)

abbrev pub done {ℓ} : {A : Type ℓ} → A → Log A
done a = (a, [])

abbrev pub emit {ℓ} : {A : Type ℓ} → A → Call → Log A
emit a c = (a, c ∷ [])
