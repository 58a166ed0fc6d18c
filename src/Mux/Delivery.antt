-- ===== src/Mux/Delivery.antt =====
-- Runs of `run_driver`: the channels that it delivers, and its faults.
use mathlib.Core.Path.{subst}
use codex_shuttle.Prelude.{
  ℕ, ◌≡◌, refl, sym, ◌≢◌, inl, inr, true, false, List, [], ◌∷◌, ◌++◌, Option, none, some, arith,
  if◌then◌else◌, Result, ok, err, All, All-append,
}
use codex_shuttle.Mux.Channel.{ChannelKind, MuxError, identify, identify-ok}
use codex_shuttle.Mux.Driver.{
  IncomingChannel, Event, opens, header, fault, Driver, start, handle_inbound, deliver, step,
  continue, run_driver, WasSent,
}

continue-eq-ok :
    (f : Driver → Result MuxError Driver) (r : Result MuxError Driver) {d : Driver}
    → continue f r ≡ ok d
    → (e : Driver) × (r ≡ ok e) × (f e ≡ ok d)
unfolding continue
continue-eq-ok f (ok e) h = (e, refl, h)
continue-eq-ok f (err x) h = cc

-- Any step other than the end of an `identify_inbound` delivers nothing.
abbrev IsHeader : Event → Type 0
IsHeader (header _ _) = Unit {0}
IsHeader _ = ⊥

step_keeps :
    (e : Event) (d : Driver) {d' : Driver}
    → ¬ IsHeader e
    → step e d ≡ ok d'
    → d'.incoming ≡ d.incoming
unfolding step
step_keeps (header s b) d n h = absurd (n tt)
step_keeps (opens a) d n h = ground arith
step_keeps fault d n h = ground arith
step_keeps _ d n h = ground arith

module _ (P : IncomingChannel → Type 0) where
  deliver_keeps :
      (s : ℕ) (r : Result MuxError (ChannelKind × List ℕ)) (d : Driver)
      → ((kind : ChannelKind) (unread : List ℕ)
          → r ≡ ok (kind, unread)
          → P (record { kind = kind; stream = s; unread = unread }))
      → All P d.incoming
      → All P (deliver s r d).incoming
  unfolding deliver
  deliver_keeps s (err e) d f h = h
  deliver_keeps s (ok (kind, unread)) d f h =
      elim d.receiver_open
        as (λ b.
          All P
            (if b
              then record d {
                incoming = d.incoming ++ record { kind = kind; stream = s; unread = unread } ∷ [];
              }
              else record d { faults = d.faults ++ MuxError.receiver_closed ∷ [] }).incoming) [
                | true ↦ All-append P d.incoming _ h (f kind unread refl, tt)
                | false ↦ h
              ]

header_sent :
    (s : ℕ) (b : Option (List ℕ)) (es : List Event) (kind : ChannelKind) (unread : List ℕ)
    → identify b ≡ ok (kind, unread)
    → WasSent (header s b ∷ es) (record { kind = kind; stream = s; unread = unread })
unfolding identify
header_sent s none es kind unread h = cc
header_sent s (some bs) es kind unread h = inl (refl, identify-ok bs unread kind h)

earlier : (e : Event) (es : List Event) (c : IncomingChannel) → WasSent es c → WasSent (e ∷ es) c
earlier (header s none) es c h = h
earlier (header s (some bs)) es c h = inr h
earlier (opens a) es c h = h
earlier _ es c h = h

abbrev Delivered : (IncomingChannel → Type 0) → Result MuxError Driver → Type 0
Delivered P (ok d) = All P d.incoming
Delivered P (err e) = Unit

run_delivers :
    (P : IncomingChannel → Type 0) (es : List Event) (d : Driver) {d' : Driver}
    → ((c : IncomingChannel) → WasSent es c → P c)
    → All P d.incoming
    → run_driver es d ≡ ok d'
    → All P d'.incoming
unfolding run_driver
run_delivers P [] d f h r = subst (λ (x : Result MuxError Driver). Delivered P x) r h
run_delivers P (header s b ∷ es) d f h r =
    run_delivers P es _ (λ c w. f c (earlier (header s b) es c w))
      (deliver_keeps P s (identify b) d (λ kind unread i. f _ (header_sent s b es kind unread i)) h)
      r
run_delivers P (e ∷ es) d f h r =
    let (d₁, stepped, rest) = continue-eq-ok (run_driver es) (step e d) r in
    run_delivers P es d₁ (λ c w. f c (earlier e es c w))
      (subst (All P) (sym (step_keeps e d (λ x. x) stepped)) h) rest

-- Every channel that a fresh driver has delivered came over a stream that began with the header of
-- exactly that kind, and what its receiver will read is exactly what followed the header.
pub run_driver-WasSent :
    (es : List Event) (d : Driver) → run_driver es start ≡ ok d → All (WasSent es) d.incoming
run_driver-WasSent es d h = run_delivers (WasSent es) es start (λ c w. w) tt h

append_ne_nil : (es : List MuxError) (e : MuxError) → es ++ e ∷ [] ≢ []
append_ne_nil [] e = cc
append_ne_nil (x ∷ xs) e = cc

deliver_faults :
    (s : ℕ) (r : Result MuxError (ChannelKind × List ℕ)) (d : Driver)
    → d.faults ≢ []
    → (deliver s r d).faults ≢ []
unfolding deliver
deliver_faults s (err e) d n = append_ne_nil d.faults e
deliver_faults s (ok (kind, unread)) d n =
    ground (arith, append_ne_nil d.faults MuxError.receiver_closed)

-- Faults are never dropped: the only step that takes one ends the driver.
step_faults :
    (e : Event) (d : Driver) {d' : Driver} → d.faults ≢ [] → step e d ≡ ok d' → d'.faults ≢ []
unfolding step handle_inbound
step_faults (header s b) d n h = ground (arith, deliver_faults s (identify b) d)
step_faults (opens a) d n h = ground arith
step_faults fault d n h = ground arith
step_faults _ d n h = ground arith

fault_stops : (d : Driver) {d' : Driver} → d.faults ≢ [] → step fault d ≢ ok d'
unfolding step
fault_stops d n h = ground arith

bad_header_faults :
    (s : ℕ) (b : Option (List ℕ)) (e : MuxError) (d : Driver) {d' : Driver}
    → identify b ≡ err e
    → step (header s b) d ≡ ok d'
    → d'.faults ≢ []
unfolding step
bad_header_faults s b e d bad h = ground (arith, append_ne_nil d.faults e)

faults_stop :
    (es fs : List Event) (d d' : Driver) → d.faults ≢ [] → run_driver (es ++ fault ∷ fs) d ≢ ok d'
unfolding run_driver
faults_stop [] fs d d' n h =
    let (d₁, e, _) = continue-eq-ok (run_driver fs) (step fault d) h in fault_stops d n e
faults_stop (e ∷ es) fs d d' n h =
    let (d₁, stepped, rest) = continue-eq-ok (run_driver (es ++ fault ∷ fs)) (step e d) h in
    faults_stop es fs d₁ d' (step_faults e d n stepped) rest

-- A stream whose header does not come in time, is short, has another magic or an unknown kind is
-- never passed over: whatever happens next, the driver ends with an error when it reads its faults.
pub bad_header_stops :
    (s : ℕ) (b : Option (List ℕ)) (e : MuxError) (es fs : List Event) (d d' : Driver)
    → identify b ≡ err e
    → run_driver (header s b ∷ es ++ fault ∷ fs) d ≢ ok d'
unfolding run_driver
bad_header_stops s b e es fs d d' bad h =
    let (d₁, stepped, rest) =
      continue-eq-ok (run_driver (es ++ fault ∷ fs)) (step (header s b) d) h in
    faults_stop es fs d₁ d' (bad_header_faults s b e d bad stepped) rest
