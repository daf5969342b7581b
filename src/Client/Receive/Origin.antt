-- ===== src/Client/Receive/Origin.antt =====
-- Where the datagrams come from that the receive loop of command_get hands over: from recvfrom.
use tsunami_udp.Prelude.{
  ℕ, ◌≤◌, ◌≡◌, subst, sym, Bool, true, false, arith, List, [], ◌∷◌, ◌++◌, All, Option, none, some,
  if◌then◌else◌,
}
use tsunami_udp.Protocol.{Datagram, Status, ok, failed, Retransmission}
use tsunami_udp.Ring.{dump}
use tsunami_udp.Client.Requests.{repeat_retransmit}
use tsunami_udp.Client.Receive.{Policy, Environment, Turn, goes_on, skips, completes, aborts, stuck}
use tsunami_udp.Client.Transfer.{Transfer}
use tsunami_udp.Client.Receive.Iterate.{process, after_error, iterate}
use tsunami_udp.Client.Receive.Complete.{stores, process-IsProcessed}
use tsunami_udp.Client.Receive.Session.{
  Session, Event, arrives, disk_takes, disk_take, after_turn, run, numbered,
}
use tsunami_udp.Client.Receive.Delivery.{
  J, handed_over, disk_take-handed_over, disk_take-J, disk_take-local, repeat-J, receive-J,
  iterate-Iterated, numbered-rest, process-local,
}

-- The datagrams that arrive.
unfoldable pub arrivals : List Event → List Datagram
arrivals [] = []
arrivals (disk_takes ∷ events) = arrivals events
arrivals (arrives env none ∷ events) = arrivals events
arrivals (arrives env (some d) ∷ events) = d ∷ arrivals events

module _ (policy : Policy) (n : ℕ) (P : Datagram → Type 0) where
  All-append : (xs ys : List Datagram) → All P xs → All P ys → All P (xs ++ ys)
  All-append [] ys v w = w
  All-append (x ∷ xs) ys v w = (v.0, All-append xs ys v.1 w)

  All-front : (xs ys : List Datagram) → All P (xs ++ ys) → All P xs
  All-front [] ys v = tt
  All-front (x ∷ xs) ys v = (v.0, All-front xs ys v.1)

  All-back : (xs ys : List Datagram) → All P (xs ++ ys) → All P ys
  All-back [] ys v = v
  All-back (x ∷ xs) ys v = All-back xs ys v.1

  -- All that was handed over has the property, and so has what the buffer holds once it has a block
  -- number.
  pub record K (s : Session) : Type 0 where
    pub handed : All P (handed_over s)
    pub held : 1 ≤ s.receiver.local.block → P s.receiver.local

  pushed :
      (b : Bool) (taken ds : List Datagram) (d : Datagram)
      → P d
      → All P (taken ++ ds)
      → All P (taken ++ (if b then ds ++ d ∷ [] else ds))
  pushed true taken ds d p v =
      All-append taken (ds ++ d ∷ []) (All-front taken ds v)
        (All-append ds (d ∷ []) (All-back taken ds v) (p, tt))
  pushed false taken ds d p v = v

  process-K :
      (env : Environment) (s : Session)
      → 1 ≤ s.receiver.local.block
      → J policy n s
      → K s
      → K (record s { receiver = (process policy env s.receiver).receiver })
  process-K env s lo v k =
      let p = process-IsProcessed policy env s.receiver v.receiving lo in
      let same = process-local policy n env s.receiver in
      record {
        handed =
            subst (λ q. All P (s.taken ++ q)) (sym p.queue)
              (pushed (stores s.receiver) s.taken (dump s.receiver.ring) s.receiver.local
                (k.held lo) k.handed);
        held = λ h. subst P (sym same) (k.held lo);
      }

  after_error-K :
      (env : Environment) (s : Session) (status : Status) (t : Transfer)
      (sent : List Retransmission)
      → 1 ≤ s.receiver.local.block
      → J policy n (record s { receiver = record s.receiver { transfer = t } })
      → K s
      → K (record s { receiver = (after_error policy env s.receiver status t sent).receiver })
  unfolding after_error
  after_error-K env s ok t sent lo v k =
      let q =
        process-K env (record s { receiver = record s.receiver { transfer = t } }) lo v
          (record { handed = k.handed; held = k.held }) in
      record { handed = q.handed; held = q.held }
  after_error-K env s failed t sent lo v k = record { handed = k.handed; held = k.held }

  iterate-K :
      (env : Environment) (s : Session) (o : Option Datagram) (events : List Event)
      → numbered s.receiver.local.block (arrives env o ∷ events) ≡ true
      → All P (arrivals (arrives env o ∷ events))
      → J policy n s
      → K s
      → K (record s { receiver = (iterate policy env o s.receiver).receiver })
  unfolding iterate numbered arrivals
  iterate-K env s (some d) events e a v k =
      let q =
        process-K env (record s { receiver = record s.receiver { local = d } }) (ground arith)
          (receive-J policy n d s v) (record { handed = k.handed; held = λ h. a.0 }) in
      record { handed = q.handed; held = q.held }
  iterate-K env s none events e a v k =
      let again = repeat_retransmit env.control s.receiver.transfer in
      after_error-K env s again.0 again.1 again.2 (ground arith) (repeat-J policy n env s v) k

  arrivals-rest :
      (env : Environment) (o : Option Datagram) (events : List Event)
      → All P (arrivals (arrives env o ∷ events))
      → All P (arrivals events)
  unfolding arrivals
  arrivals-rest env none events a = a
  arrivals-rest env (some d) events a = a.1

  after_turn-handed :
      (turn : Turn) (s : Session) (rest : Turn × Session)
      → All P (handed_over s)
      → All P (handed_over rest.1)
      → All P (handed_over (after_turn turn s rest).1)
  unfolding after_turn
  after_turn-handed goes_on s rest v w = w
  after_turn-handed skips s rest v w = w
  after_turn-handed completes s rest v w = v
  after_turn-handed aborts s rest v w = v
  after_turn-handed stuck s rest v w = v

  pub run-handed :
      (events : List Event) (s : Session)
      → numbered s.receiver.local.block events ≡ true
      → All P (arrivals events)
      → J policy n s
      → K s
      → All P (handed_over (run policy events s).1)
  unfolding run
  run-handed [] s e a v k = k.handed
  run-handed (disk_takes ∷ events) s e a v k =
      run-handed events (disk_take s) (rw (disk_take-local policy n s) (unfold numbered in e))
        (unfold arrivals in a) (disk_take-J policy n s v)
        (record {
          handed = subst (All P) (sym (disk_take-handed_over s v.receiving.ring)) k.handed;
          held = rw (disk_take-local policy n s) k.held;
        })
  run-handed (arrives env o ∷ events) s e a v k =
      let i = iterate-Iterated policy n env s o events e v in
      let q = iterate-K env s o events e a v k in
      after_turn-handed (iterate policy env o s.receiver).turn _ _ q.handed (
        run-handed events (record s { receiver = (iterate policy env o s.receiver).receiver })
          (numbered-rest policy n env s o events e) (arrivals-rest env o events a) i.keeps q)
