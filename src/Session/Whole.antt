-- ===== src/Session/Whole.antt =====
-- A file from the server's disk to the client's: the negotiation, the transmission, the receive loop and
-- the disk thread together.
mod Tests
use mathlib.Core.List.{Memᴰ}
use mathlib.Core.List.Memᴰ.{head, tail}
use tsunami_udp.Prelude.{
  ℕ, ◌+◌, ◌*◌, ◌/◌, ◌%◌, ◌^◌, ◌≤◌, ◌<◌, ◌≢◌, ◌≡◌, refl, sym, subst, ap, ◌∙◌, Bool, true, List, [],
  ◌∷◌, ◌++◌, arith, length, drop, All, some,
}
use tsunami_udp.Protocol.{Datagram}
use tsunami_udp.Wire.{Host}
use tsunami_udp.Wire.Connection.{returned}
use tsunami_udp.Wire.Connection.Laws.{line_of_room}
use tsunami_udp.Negotiation.{
  Request, Opened, Shared, Serving, count_blocks, client_open, server_open, local_file,
}
use tsunami_udp.Negotiation.Epoch.{kept_epoch}
use tsunami_udp.Negotiation.Agreement.{epoch_between}
use tsunami_udp.Negotiation.Accept.{request_bytes, reply_bytes, served}
use tsunami_udp.Negotiation.Agreement.{IsGood, opened, open-agrees, block_size_pos}
use tsunami_udp.Server.Datagram.{Reader}
use tsunami_udp.Server.Datagram.Laws.{IsInStep}
use tsunami_udp.Server.Transmit.{Floats, Parameter, Input, Server}
use tsunami_udp.Server as Server_side
use tsunami_udp.Server.Transmit.Genuine.{Genuine, all_legal, IsServing, run-Genuine}
use tsunami_udp.Ring.{Ring, Setup, done, create, max_blocks_queued}
use tsunami_udp.Client.Receive.{Policy, completes}
use tsunami_udp.Client.Receive.Session.{Session, Event, run, numbered, new_session}
use tsunami_udp.Client.Receive.Origin.{arrivals}
use tsunami_udp.Client.Finish.{end_transfer}
use tsunami_udp.Client.Disk.{DiskCall, Target, disk_thread}
use tsunami_udp.Client.Disk.Blocks.{block_count, target_of}
use tsunami_udp.Client.Disk.Whole.{IsBlock}
use tsunami_udp.Client.File.{transfer-whole}

-- What the transmission of the server starts with, after the negotiation.
abbrev pub parameter_of : Serving → Parameter
parameter_of v = record {
  block_size = v.request.block_size;
  block_count = v.block_count;
  error_rate = v.request.error_rate;
  slower_num = v.request.slower_num;
  slower_den = v.request.slower_den;
  faster_num = v.request.faster_num;
  faster_den = v.request.faster_den;
  ipd_time = v.ipd_time;
}

-- For the first file that the process sends; `buffer` is what the datagram held.
abbrev pub start_of : (fl : Floats) (v : Serving) → List ℕ → Server fl (parameter_of v)
start_of fl v buffer = record {
  reader = record { content = v.content; position = 0; last_block = 0; buffer = buffer };
  block = 0;
  ipd_current = fl.of_nat v.ipd_current;
  retransmitlen = 0;
  deadconnection_counter = 0;
}

-- What the disk thread of the client starts with.
abbrev pub target_opened : Request → Opened → Target
target_opened r o = record {
  block_size = r.block_size;
  file_size = o.file_size;
  block_count = o.block_count;
}

-- A datagram that was sent, with the number of a block of the file.
abbrev pub IsSent : ℕ → List Datagram → Datagram → Type 0
IsSent count sent d = Memᴰ d sent × (1 ≤ d.block) × (d.block ≤ count)

All-at : (P : Datagram → Type 0) (d : Datagram) (ds : List Datagram) → All P ds → Memᴰ d ds → P d
All-at P d [] all m = elim m [ ]
All-at P d (x ∷ ds) (p, all) (head e) = subst P (sym e) p
All-at P d (x ∷ ds) (p, all) (tail m) = All-at P d ds all m

count_blocks-small :
    (block_size file_size : ℕ)
    → block_count block_size file_size + 1 < 2 ^ 32
    → count_blocks block_size file_size ≡ block_count block_size file_size
unfolding count_blocks block_count
count_blocks-small block_size file_size small = omega (arith, small)

sent-IsBlock :
    (bs : ℕ) (content : List ℕ) (positive : 0 < bs) (sent ds : List Datagram)
    → All (Genuine bs content) sent
    → All (IsSent (block_count bs (length content)) sent) ds
    → All (IsBlock bs content positive) ds
sent-IsBlock bs content positive sent [] genuine all = tt
sent-IsBlock bs content positive sent (d ∷ ds) genuine ((there, first, last), all) = (
  record { first = first; last = last; genuine = All-at (Genuine bs content) d sent genuine there },
  sent-IsBlock bs content positive sent ds genuine all,
)

module _ (client_host server_host : Host) (shared : Shared) (writable : List ℕ → Bool) (r : Request)
    (name local chosen content : List ℕ) (now size room : ℕ)
    (good : IsGood shared r name content now)
    (can_write : local_file writable local ≡ some chosen) where
  abbrev bs : ℕ
  bs = r.block_size

  abbrev positive : 0 < bs
  positive = block_size_pos r.block_size good.block_size_wide

  abbrev pub o : Opened
  o =
      opened r (length content) (count_blocks bs (length content))
        (epoch_between client_host server_host now) chosen

  abbrev pub v : Serving
  v = served r now name content

  module _ (some_blocks : 1 ≤ count_blocks bs (length content))
      (small : block_count bs (length content) + 1 < 2 ^ 32) where
    same_count : count_blocks bs (length content) ≡ block_count bs (length content)
    same_count = count_blocks-small bs (length content) small

    sent-Genuine :
        (fl : Floats) (inputs : List Input) (buffer : List ℕ)
        → length buffer ≡ bs
        → all_legal inputs ≡ true
        → All
            (Genuine bs content)
            (Server_side.Transmit.run fl (parameter_of v) inputs (start_of fl v buffer)).2
    sent-Genuine fl inputs buffer fits legal_ones =
        let none_before : 0 ≡ bs * 0 = omega arith in
        let first_position : drop 0 content ≡ drop (bs * 0) content =
          ap (λ k. drop k content) none_before in
        run-Genuine fl (parameter_of v) content some_blocks (omega (arith, same_count, small))
          inputs (start_of fl v buffer) legal_ones
          (record {
            step = record { at = first_position; room = fits; word = omega arith };
            same_content = refl;
            within = omega arith;
          })

    -- A good request, as for open-agrees, over a connection that works, for a file of the server of at
    -- least one block and fewer than 2^32 - 1; each side is given what the other one sends. The file is
    -- the first that the process of the server sends, and the requests for single blocks that it gets
    -- are for blocks from 1 on. The client receives without loss; each datagram that arrives is one
    -- that the server sends, with the number of a block of the file, in any order, with losses and
    -- duplicates; receive errors come only after the first datagram; the loop completes; and the disk of
    -- the client works. Then the disk thread ends at the stop block, whatever it took before, and what it
    -- has taken leaves exactly the file of the server.
    pub get-whole :
        (fl : Floats) (inputs : List Input) (buffer : List ℕ)
        → length buffer ≡ bs
        → all_legal inputs ≡ true
        → (policy : Policy) → policy.lossless ≡ true
        → (setup : Setup) (garbage : ℕ → Datagram) {ring : Ring Datagram}
        → create setup garbage bs ≡ done ring tt
        → (events : List Event) → numbered 0 events ≡ true
        → All
            (IsSent o.block_count
              (Server_side.Transmit.run fl (parameter_of v) inputs (start_of fl v buffer)).2)
            (arrivals events)
        → let received = run policy events (new_session o.block_count o.on_wire_estimate bs ring) in
          received.0 ≡ completes
          → (early : ℕ) (leftover : Datagram) (calls : ℕ → DiskCall)
          → ((k : ℕ) → (calls k).seeks ≡ true)
          → ((k : ℕ) → bs ≤ (calls k).room)
          → let from_client = name ++ b'\n' ∷ request_bytes r [] in
            let from_server =
              reply_bytes r (length content) o.block_count (kept_epoch server_host now) in
            let client =
              client_open client_host writable name local r
                (line_of_room from_server (length name + 21 + room)) in
            let server =
              server_open server_host now size shared (line_of_room from_client (21 + room)) in
            (client.ended ≡ returned o)
            × (server.ended ≡ returned v)
            × (blocks : List Datagram) × (end_transfer max_blocks_queued early leftover received.1
                ≡ some blocks)
            × (disk_thread (target_opened r o) calls blocks [] ≡ content)
    get-whole fl inputs buffer fits legal_ones policy lossless setup garbage {ring} made events fair
          sent complete early leftover calls seeks room_left =
        let sent_all =
          (Server_side.Transmit.run fl (parameter_of v) inputs (start_of fl v buffer)).2 in
        let genuine = sent-Genuine fl inputs buffer fits legal_ones in
        let (client_sent, server_sent, client_read, server_read, client_opens, server_opens) =
          open-agrees client_host server_host shared writable r name local chosen content now size
            room good can_write in
        let whole =
          subst
            (λ n.
              All (IsSent n sent_all) (arrivals events)
              → (run policy events (new_session n o.on_wire_estimate bs ring)).0 ≡ completes
              → (blocks : List Datagram) × (end_transfer max_blocks_queued early leftover
                    (run policy events (new_session n o.on_wire_estimate bs ring)).1
                  ≡ some blocks)
                × (disk_thread
                      (record { block_size = bs; file_size = length content; block_count = n })
                      calls blocks []
                    ≡ content))
            (sym same_count)
            (λ among ends.
              transfer-whole bs content o.on_wire_estimate positive small policy lossless setup
                garbage made events fair
                (sent-IsBlock bs content positive sent_all (arrivals events) genuine among) ends
                early leftover calls seeks room_left) in
        let (blocks, ended, file) = whole sent complete in
        (client_opens, server_opens, blocks, ended, file)
