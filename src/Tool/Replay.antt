-- ===== src/Tool/Replay.antt =====
-- cli/commands.cpp: `runReplay`, from the capture file to what the session's worker is handed.
use wisp.Prelude.{
  ℕ, zero, suc, ◌+◌, Bool, true, false, not, ◌&&◌, Option, none, some, List, [], ◌∷◌, ◌++◌, Bytes,
  length, if◌then◌else◌,
}
use wisp.Keys.{is_reserved_key}
use wisp.Wire.{Envelope, Codec}
use wisp.Recording.{ReadError, ReadResult, open_reader, read}
use wisp.Tool.Options.{Options}

-- How a replay ends; the last two come behind the loop, from `sync`.
pub data Ending : Type 0 where
  not_a_capture : Ending
  damaged : ReadError → Ending
  not_taken unconfirmed replayed : Ending

pub record Replay : Type 0 where
  pub sent : List Envelope
  pub skipped : ℕ
  pub ending : Ending

-- What the worker answers: whether `publishEnvelope` takes a message after those it was handed, and
-- whether `sync` confirms them in time.
pub record Session : Type 0 where
  pub takes : List Envelope → Envelope → Bool
  pub confirms : List Envelope → Bool

module _ {D : Type 0} (codec : Codec) (opts : Options D) (session : Session) where
  unfoldable pub is_left_out : Envelope → Bool
  is_left_out env = not opts.include_control && is_reserved_key env.header.handler_key

  unfoldable pub renewed : Envelope → Envelope
  renewed env =
      if opts.preserve_uuids
      then env
      else record env { header = record env.header { message_uuid = []; origin_broker_id = [] } }

  unfoldable pub settle : List Envelope → ℕ → Replay
  settle sent skipped = record {
    sent = sent;
    skipped = skipped;
    ending = if session.confirms sent then Ending.replayed else Ending.unconfirmed;
  }

  -- The loop, not interrupted; `none` is fuel that ran out.
  unfoldable pub replay_from : ℕ → Bytes → List Envelope → ℕ → Option Replay
  unfolding is_left_out renewed settle
  replay_from zero s sent skipped = none
  replay_from (suc fuel) s sent skipped = elim (read codec s) [
    | ReadResult.end_of_file ↦ some (settle sent skipped)
    | ReadResult.failed why ↦
        some (record { sent = sent; skipped = skipped; ending = Ending.damaged why })
    | ReadResult.got env offset rest ↦ elim (is_left_out env) [
      | true ↦ replay_from fuel rest sent (skipped + 1)
      | false ↦ elim (session.takes sent (renewed env)) [
        | true ↦ replay_from fuel rest (sent ++ renewed env ∷ []) skipped
        | false ↦ some (record { sent = sent; skipped = skipped; ending = Ending.not_taken })
      ]
    ]
  ]

  -- A record takes a byte of the file at least.
  unfoldable pub run_replay : Bytes → Option Replay
  unfolding replay_from
  run_replay file = elim (open_reader file) [
    | none ↦ some (record { sent = []; skipped = 0; ending = Ending.not_a_capture })
    | some records ↦ replay_from (suc (length records)) records [] 0
  ]
