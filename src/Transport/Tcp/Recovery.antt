-- ===== src/Transport/Tcp/Recovery.antt =====
-- What `receive` does about connections that fail: how often it tries, how long it waits, what it keeps.
use automated_reconciliation.Common.{
  ℕ, zero, suc, ◌+◌, ◌-◌, ◌*◌, ◌^◌, ◌≤◌, ◌<◌, ◌≡◌, refl, ◌∙◌, Bool, true, false, none, some, List,
  [], ◌∷◌, ◌++◌, length, All, arith, leb, if◌then◌else◌, Result, ok, err, Option-cases, inl, inr,
}
use mathlib.Core.List.{append_assoc, append-nil}
use native.Mathlib.Nat.{add-zero, zero-add}
use automated_reconciliation.Transport.Framing.{
  Received, Connection, ReadError, frame_too_long, frame_empty, connection_closed, os_error,
  read_frame,
}
use automated_reconciliation.Transport.Tcp.{
  Config, Dial, refused, accepted, Tcp, ReceiveError, bad_frame, rejected, transport_failed,
  is_caught, connect, attempt_once, receive_from, receive, close, fresh, dial, read_from,
  finish_round, decoded,
}

-- The delays of `count` rounds, the first of them round `attempt`: each is twice the one before.
unfoldable pub delays : Config → ℕ → ℕ → List ℕ
delays config attempt zero = []
delays config attempt (suc count) =
    (config.reconnect_backoff * 2 ^ attempt) ∷ delays config (suc attempt) count

abbrev is_dead : Result ReadError (List ℕ) → Bool
is_dead (ok _) = false
is_dead (err e) = is_caught e

module _ (config : Config) where
  -- A connection that is refused, or that dies before it has delivered a whole frame.
  abbrev pub Fails : Dial → Type 0
  Fails refused = Unit
  Fails (accepted wire) =
      (e : ReadError) × (c : Connection) × (read_frame config.framing config.max_frame_bytes
          (record { buffer = []; wire = wire })
        ≡ (err e, c))
      × (is_caught e ≡ true)

module _ {E A : Type 0} (decode : List ℕ → Result E A) (config : Config) where
  abbrev closed_after : List ℕ → List Dial → Tcp
  closed_after slept dials = record { socket = none; buffer = []; dials = dials; slept = slept }

  fail_once :
      (rounds attempt : ℕ) (slept : List ℕ) (d : Dial) (dials : List Dial)
      → attempt < config.reconnect_attempts
      → Fails config d
      → receive_from decode config (suc rounds) attempt (closed_after slept (d ∷ dials))
        ≡ receive_from decode config rounds
            (suc attempt)
            (closed_after (slept ++ (config.reconnect_backoff * 2 ^ attempt) ∷ []) dials)
  unfolding receive_from attempt_once connect
  fail_once rounds attempt slept refused dials h f = ground arith
  fail_once rounds attempt slept (accepted wire) dials h (e, c, run, caught) =
      ground (arith, run, caught)

  fail_many :
      (bad dials : List Dial) (rounds attempt : ℕ) (slept : List ℕ)
      → attempt + length bad ≤ config.reconnect_attempts
      → All (Fails config) bad
      → receive_from decode config (length bad + rounds) attempt (closed_after slept (bad ++ dials))
        ≡ receive_from decode config rounds
            (attempt + length bad)
            (closed_after (slept ++ delays config attempt (length bad)) dials)
  unfolding delays
  fail_many [] dials rounds attempt slept h f = simp (zero-add, add-zero, append-nil)
  fail_many (d ∷ bad) dials rounds attempt slept h f =
      let n = length bad in
      let shift : suc n + rounds ≡ suc (n + rounds) = omega arith in
      let later : suc attempt + n ≡ attempt + suc n = omega arith in
      let wait = config.reconnect_backoff * 2 ^ attempt in
      let first = fail_once (n + rounds) attempt slept d (bad ++ dials) (omega arith) f.0 in
      let rest = fail_many bad dials rounds (suc attempt) (slept ++ wait ∷ []) (omega arith) f.1 in
      rw shift (first ∙ (rw (later, append_assoc slept) at rest))

  -- Up to `reconnect_attempts` connections may fail in a row, in the middle of a frame too: if the next one
  -- delivers a frame, `receive` returns what that frame decodes to, nothing of the failed connections is left
  -- in it, and one delay was slept for each of them, doubling each time.
  pub receive-recovers :
      (bad dials : List Dial) (wire : List Received) (frame : List ℕ) (event : A) (c : Connection)
      → length bad ≤ config.reconnect_attempts
      → All (Fails config) bad
      → read_frame config.framing config.max_frame_bytes (record { buffer = []; wire = wire })
        ≡ (ok frame, c)
      → decode frame ≡ ok event
      → receive decode config (fresh (bad ++ accepted wire ∷ dials)) ≡ (
        ok event,
        record {
          socket = some c.wire;
          buffer = c.buffer;
          dials = dials;
          slept = delays config 0 (length bad);
        },
      )
  unfolding receive
  receive-recovers bad dials wire frame event c h f run good =
      let left = config.reconnect_attempts - length bad in
      let rounds : config.reconnect_attempts + 1 ≡ length bad + suc left = omega arith in
      rw (rounds, fail_many bad (accepted wire ∷ dials) (suc left) 0 [] (omega arith) f)
        (unfold receive_from attempt_once connect in ground (arith, run, good))

  fail_last :
      (rounds : ℕ) (slept : List ℕ) (d : Dial) (dials : List Dial)
      → Fails config d
      → receive_from decode config
          (suc rounds)
          config.reconnect_attempts
          (closed_after slept (d ∷ dials))
        ≡ (err transport_failed, closed_after slept dials)
  unfolding receive_from attempt_once connect
  fail_last rounds slept refused dials f = ground arith
  fail_last rounds slept (accepted wire) dials (e, c, run, caught) = ground (arith, run, caught)

  -- If `reconnect_attempts` + 1 connections fail in a row, `receive` gives up without a further one, having
  -- slept between them only, and leaves neither a socket nor any byte in the buffer.
  pub receive-gives_up :
      (bad : List Dial) (last : Dial) (dials : List Dial)
      → length bad ≡ config.reconnect_attempts
      → All (Fails config) bad
      → Fails config last
      → receive decode config (fresh (bad ++ last ∷ dials)) ≡ (
        err transport_failed,
        record {
          socket = none;
          buffer = [];
          dials = dials;
          slept = delays config 0 config.reconnect_attempts;
        },
      )
  unfolding receive
  receive-gives_up bad last dials h f g =
      let rounds : config.reconnect_attempts + 1 ≡ length bad + 1 = omega arith in
      let there : 0 + length bad ≡ config.reconnect_attempts = omega arith in
      rw rounds (
        fail_many bad (last ∷ dials) 1 0 [] (omega arith) f
        ∙ rw (there, h) (fail_last 0 (delays config 0 config.reconnect_attempts) last dials g))

  abbrev pub IsConnected : Tcp → Type 0
  IsConnected s = (wire : List Received) × (s.socket ≡ some wire)

  -- How a call of `receive` leaves the transport.
  abbrev pub Leaves : Result (ReceiveError E) A × Tcp → Type 0
  Leaves (ok _, s) = IsConnected s
  Leaves (err (bad_frame e), s) = (is_caught e ≡ false) × IsConnected s
  Leaves (err (rejected _), s) = IsConnected s
  Leaves (err transport_failed, s) = (s.socket ≡ none) × (s.buffer ≡ [])

  decoded-Leaves : (r : Result E A) (s : Tcp) → IsConnected s → Leaves (decoded decode config r, s)
  decoded-Leaves (ok event) s up = up
  decoded-Leaves (err e) s up = up

  retry-Leaves :
      (last : Bool) (s : Tcp) (again : Result (ReceiveError E) A × Tcp)
      → (last ≡ false → Leaves again)
      → Leaves (if last then (err transport_failed, close s) else again)
  retry-Leaves true s again keep = (refl, refl)
  retry-Leaves false s again keep = keep refl

  finish_round-Leaves :
      (attempt : ℕ) (retry : Tcp → Result (ReceiveError E) A × Tcp)
      (tried : Result ReadError (List ℕ) × Tcp)
      → (attempt < config.reconnect_attempts → (s : Tcp) → Leaves (retry s))
      → (is_dead tried.0 ≡ false → IsConnected tried.1)
      → Leaves (finish_round decode config attempt retry tried)
  finish_round-Leaves attempt retry (ok frame, s) keep up =
      decoded-Leaves (decode frame) s (up refl)
  finish_round-Leaves attempt retry (err frame_too_long, s) keep up = (refl, up refl)
  finish_round-Leaves attempt retry (err frame_empty, s) keep up = (refl, up refl)
  finish_round-Leaves attempt retry (err connection_closed, s) keep up =
      retry-Leaves (leb config.reconnect_attempts attempt) s _ (λ more. keep (ground arith) _)
  finish_round-Leaves attempt retry (err os_error, s) keep up =
      retry-Leaves (leb config.reconnect_attempts attempt) s _ (λ more. keep (ground arith) _)

  dial-caught :
      (dials : List Dial) (s : Tcp)
      → is_dead (read_from decode config (dial dials s)).0 ≡ false
      → IsConnected (read_from decode config (dial dials s)).1
  dial-caught [] s h = cc
  dial-caught (refused ∷ dials) s h = cc
  dial-caught (accepted wire ∷ dials) s h = (_, refl)

  attempt_once-IsConnected :
      (s : Tcp)
      → is_dead (attempt_once decode config s).0 ≡ false
      → IsConnected (attempt_once decode config s).1
  unfolding attempt_once connect
  attempt_once-IsConnected s h = elim (Option-cases s.socket) [
    | inl down ↦ rw (down, connect) (dial-caught s.dials s (rw (down, connect) at h))
    | inr (wire, open_) ↦ rw (open_, connect) (_, refl)
  ]

  receive_from-Leaves :
      (rounds attempt : ℕ) (s : Tcp)
      → attempt + rounds ≡ config.reconnect_attempts + 1
      → attempt ≤ config.reconnect_attempts
      → Leaves (receive_from decode config rounds attempt s)
  unfolding receive_from
  receive_from-Leaves zero attempt s h k = absurd (omega arith)
  receive_from-Leaves (suc rounds) attempt s h k =
      finish_round-Leaves attempt (receive_from decode config rounds (suc attempt))
        (attempt_once decode config s)
        (λ more t. receive_from-Leaves rounds (suc attempt) t (omega arith) more)
        (attempt_once-IsConnected s)

  -- A call of `receive`, from any state, keeps the connection when it returns an event or raises about a frame
  -- (and then the error is not one that is retried); it drops the socket and the buffered bytes exactly when
  -- it raises TransportError.
  pub receive-Leaves : (s : Tcp) → Leaves (receive decode config s)
  unfolding receive
  receive-Leaves s =
      receive_from-Leaves (config.reconnect_attempts + 1) 0 s (omega arith) (omega arith)
