-- ===== src/Tool/Replayed.antt =====
-- cli/commands.cpp and cli/recording.cpp: what `runReplay` sends of a capture file.
use wisp.Prelude.{
  ◌≡◌, refl, ◌∙◌, ap, inl, inr, Bool-cases, ℕ, zero, suc, ◌+◌, ◌≤◌, ◌<◌, ◌^◌, true, some, List, [],
  ◌∷◌, ◌++◌, append_assoc, append-nil, nat_eq, Bytes, bytes_eq, if◌then◌else◌, length,
  length-append, arith,
}
use wisp.Wire.{Envelope, Codec, IsFaithful}
use wisp.Recording.{ReadError, magic, record_bytes}
use wisp.Recording.Capture.{
  Fits, read-short, read-nothing, open_reader-magic, record_bytes-long, read-record_bytes,
}
use wisp.Tool.Options.{Options}
use wisp.Tool.Replay.{
  Ending, Replay, Session, is_left_out, renewed, settle, replay_from, run_replay,
}

pub record Captured : Type 0 where
  pub offset : ℕ
  pub envelope : Envelope

unfoldable pub captured : Codec → List Captured → Bytes
captured codec [] = []
captured codec (r ∷ records) = record_bytes codec r.offset r.envelope ++ captured codec records

pub data AllFit (codec : Codec) : List Captured → Type 0 where
  no_records : AllFit codec []
  one_more :
      {r : Captured} {records : List Captured}
      → Fits codec r.envelope
      → r.offset < 2 ^ 64
      → AllFit codec records
      → AllFit codec (r ∷ records)

plus_zero : (n : ℕ) → n + 0 ≡ n
plus_zero n = omega arith

zero_plus : (n : ℕ) → 0 + n ≡ n
zero_plus n = omega arith

plus_suc : (n k : ℕ) → n + 1 + k ≡ n + suc k
plus_suc n k = omega arith

length-captured :
    (codec : Codec) (records : List Captured) → length records ≤ length (captured codec records)
unfolding captured
length-captured codec [] = omega arith
length-captured codec (r ∷ records) = omega (
  arith,
  length-captured codec records,
  length-append (record_bytes codec r.offset r.envelope) (captured codec records),
  record_bytes-long codec r.offset r.envelope,
)

module _ {D : Type 0} (codec : Codec) (opts : Options D) (session : Session) where
  unfoldable pub published : List Captured → List Envelope
  published [] = []
  published (r ∷ records) =
      let rest = published records in
      if is_left_out codec opts session r.envelope
      then rest
      else renewed codec opts session r.envelope ∷ rest

  unfoldable pub left_out : List Captured → ℕ
  left_out [] = 0
  left_out (r ∷ records) =
      let rest = left_out records in
      if is_left_out codec opts session r.envelope then suc rest else rest

  -- The file ends behind a record, or within the fixed part of the next.
  unfoldable pub at_end : Bytes → List Envelope → ℕ → Replay
  at_end [] sent skipped = settle codec opts session sent skipped
  at_end (c ∷ tail) sent skipped = record {
    sent = sent;
    skipped = skipped;
    ending = Ending.damaged ReadError.mid_record;
  }

  replay_from-at_end :
      (fuel : ℕ) (tail : Bytes) (sent : List Envelope) (skipped : ℕ)
      → length tail < 16
      → replay_from codec opts session (suc fuel) tail sent skipped
        ≡ some (at_end tail sent skipped)
  unfolding replay_from at_end
  replay_from-at_end fuel [] sent skipped h = rw (replay_from, read-nothing codec) refl
  replay_from-at_end fuel (c ∷ tail) sent skipped h =
      rw (replay_from, read-short codec c tail h) refl

  module _ (faithful : IsFaithful codec)
      (takes : (sent : List Envelope) (env : Envelope) → session.takes sent env ≡ true)
      (tail : Bytes) (short : length tail < 16) where
    replay_from-captured :
        (fuel : ℕ) (records : List Captured) (sent : List Envelope) (skipped : ℕ)
        → AllFit codec records
        → length records < fuel
        → replay_from codec opts session fuel (captured codec records ++ tail) sent skipped
          ≡ some (at_end tail (sent ++ published records) (skipped + left_out records))
    unfolding replay_from captured published left_out
    replay_from-captured zero records sent skipped f h = ground (arith, h)
    replay_from-captured (suc fuel) [] sent skipped f h =
        rw (append-nil sent, plus_zero skipped) (replay_from-at_end fuel tail sent skipped short)
    replay_from-captured (suc fuel) (r ∷ records) sent skipped (one_more fits in_range f) h =
        let rest = captured codec records ++ tail in
        rw
          (
            replay_from,
            append_assoc (record_bytes codec r.offset r.envelope) (captured codec records) tail,
            read-record_bytes codec r.offset r.envelope faithful fits in_range rest,
          )
          (elim (Bool-cases (is_left_out codec opts session r.envelope)) [
            | inl e ↦
                rw (e, ← plus_suc skipped (left_out records))
                  (replay_from-captured fuel records sent (skipped + 1) f (omega (arith, h)))
            | inr e ↦
                rw (e, takes sent (renewed codec opts session r.envelope))
                  (replay_from-captured fuel records
                      (sent ++ renewed codec opts session r.envelope ∷ []) skipped f
                      (omega (arith, h))
                    ∙ ap (λ out. some (at_end tail out (skipped + left_out records)))
                        (append_assoc sent (renewed codec opts session r.envelope ∷ [])
                          (published records)))
          ])

    -- With a codec that reads back what it wrote, records that fit the reader's limits and a worker
    -- that takes every message, a replay of their capture sends those that it does not leave out,
    -- renewed and in order, and counts the others. Fewer than 16 bytes behind the last record make
    -- it end with an error, and without asking for the confirmation.
    pub run_replay-captured :
        (records : List Captured)
        → AllFit codec records
        → run_replay codec opts session (magic ++ (captured codec records ++ tail))
          ≡ some (at_end tail (published records) (left_out records))
    unfolding run_replay
    run_replay-captured records f =
        let behind = captured codec records ++ tail in
        rw (run_replay, open_reader-magic behind, ← zero_plus (left_out records))
          (replay_from-captured (suc (length behind)) records [] 0 f (
            omega
              (arith, length-append (captured codec records) tail, length-captured codec records)))
