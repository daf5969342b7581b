-- ===== src/Session/Serve.antt =====
-- A server that goes on: the loop of client_handler in tsunami-udp/server/main.c up to a transfer.
use tsunami_udp.Prelude.{
  ℕ, ◌+◌, ◌^◌, ◌<◌, ◌≡◌, refl, ap, true, List, [], ◌∷◌, ◌++◌, arith, length, length-append,
  append_assoc, append-nil, map, All, none, some,
}
use tsunami_udp.Decimal.{digits}
use tsunami_udp.Wire.{to_bytes, Host}
use tsunami_udp.Wire.Connection.{hangs, failed, after}
use tsunami_udp.Wire.Connection.Laws.{
  gives, line_of_room, read-to_bytes, full_write-room, or_else-failed, or_else-returned,
}
use tsunami_udp.Wire.Connection.Lines.{IsPlain, read_line-newline}
use tsunami_udp.Negotiation.{
  Request, Shared, count_blocks, serve, serve_file, server_open, max_filename_length,
  dirlist_command, not_found,
}
use tsunami_udp.Negotiation.Epoch.{kept_epoch}
use tsunami_udp.Negotiation.Accept.{request_bytes, reply_bytes, served}
use tsunami_udp.Negotiation.Agreement.{IsGood, server_open-accepts}
use tsunami_udp.Negotiation.Refusal.{IsName, server_open-name}
use tsunami_udp.Listing.Agreement.{IsListed, listing_bytes, serve_listing-sends}
use tsunami_udp.Session.{UdpNetwork, server_open_port, negotiate_transfer, handle_requests}

-- A request after which no transfer follows: for a file that the server lacks, or for the list.
pub data Errand : Type 0 where
  absent : List ℕ → Errand
  listing : Errand

-- What the client sends for it, and what the server answers.
abbrev pub asked : Errand → List ℕ → List ℕ
asked (absent name) rest = name ++ b'\n' ∷ rest
asked listing rest = dirlist_command ++ b'\n' ∷ 0 ∷ rest

abbrev pub answered : Shared → Errand → List ℕ
answered shared (absent name) = not_found
answered shared listing = digits (length shared.listed) ++ 0 ∷ listing_bytes shared.listed

abbrev pub IsErrand : Shared → Errand → Type 0
IsErrand shared (absent name) = IsName name × (shared.content name ≡ none)
IsErrand shared listing = Unit

-- The same for a sequence of them, each with the time at the server.
abbrev pub all_asked : List (ℕ × Errand) → List ℕ → List ℕ
all_asked [] last = last
all_asked ((time, errand) ∷ errands) last = asked errand (all_asked errands last)

abbrev pub all_answered : Shared → List (ℕ × Errand) → List ℕ
all_answered shared [] = []
all_answered shared ((time, errand) ∷ errands) =
    answered shared errand ++ all_answered shared errands

dirlist-IsPlain : IsPlain dirlist_command
dirlist-IsPlain = ground arith

-- The server reads the port of the client.
pub open_port-reads :
    (network : UdpNetwork)
    → network.address_known ≡ true
    → network.socket_created ≡ true
    → (port : ℕ) → port < 2 ^ 16
    → (rest : List ℕ) (room : ℕ)
    → server_open_port network (line_of_room (to_bytes 2 port ++ rest) room)
      ≡ gives [] rest room port
unfolding server_open_port
open_port-reads network known created port fits rest room =
    rw (server_open_port, known, read-to_bytes hangs 2 port rest room fits, created) refl

module _ (host : Host) (size : ℕ) (shared : Shared) (all : All IsListed shared.listed)
    (few : length shared.listed < 2 ^ 16) where
  errand_fails :
      (errand : Errand) (now : ℕ) (rest : List ℕ) (room : ℕ)
      → IsErrand shared errand
      → server_open host now size shared
          (line_of_room (asked errand rest) (length (answered shared errand) + room))
        ≡ record { sent = answered shared errand; line = line_of_room rest room; ended = failed }
  unfolding serve_file server_open serve
  errand_fails (absent name) now rest room (n, lacks) =
      rw
        (
          server_open-name host shared name now size n rest (1 + room),
          serve_file,
          lacks,
          full_write-room not_found rest (1 + room) room (omega arith),
        )
        refl
  errand_fails listing now rest room fine =
      let count = length (answered shared listing) in
      rw
        (
          server_open,
          read_line-newline max_filename_length dirlist_command (0 ∷ rest) (count + room)
              dirlist-IsPlain (omega arith),
          serve,
          serve_listing-sends shared all few rest room,
        )
        refl

  negotiate-fails :
      (network : UdpNetwork) (errand : Errand) (now : ℕ) (rest : List ℕ) (room : ℕ)
      → IsErrand shared errand
      → negotiate_transfer host size shared network now
          (line_of_room (asked errand rest) (length (answered shared errand) + room))
        ≡ record { sent = answered shared errand; line = line_of_room rest room; ended = failed }
  unfolding negotiate_transfer
  negotiate-fails network errand now rest room fine =
      rw
        (
          negotiate_transfer,
          errand_fails errand now rest room fine,
          append-nil (answered shared errand),
        )
        refl

  -- One round that fails is followed by the next.
  round_fails :
      (network : UdpNetwork) (errand : Errand) (now : ℕ) (times rest : List ℕ) (room : ℕ)
      → IsErrand shared errand
      → handle_requests host size shared network
          (now ∷ times)
          (line_of_room (asked errand rest) (length (answered shared errand) + room))
        ≡ after
            (answered shared errand)
            (handle_requests host size shared network times (line_of_room rest room))
  unfolding handle_requests
  round_fails network errand now times rest room fine =
      or_else-failed (negotiate_transfer host size shared network now)
        (handle_requests host size shared network times)
        (line_of_room (asked errand rest) (length (answered shared errand) + room))
        (line_of_room rest room) (answered shared errand)
        (negotiate-fails network errand now rest room fine)

  module _ (network : UdpNetwork) (known : network.address_known ≡ true)
      (created : network.socket_created ≡ true) (r : Request) (name content : List ℕ) (now port : ℕ)
      (good : IsGood shared r name content now) (port_fits : port < 2 ^ 16) (rest : List ℕ)
      (room : ℕ) where
    negotiate-transfers :
        let block_count = count_blocks r.block_size (length content) in
        negotiate_transfer host size shared network now
          (line_of_room (name ++ b'\n' ∷ request_bytes r (to_bytes 2 port ++ rest)) (21 + room))
        ≡ gives
            (reply_bytes r (length content) block_count (kept_epoch host now))
            rest
            room
            (some (served r now name content, port))
    unfolding negotiate_transfer
    negotiate-transfers =
        let reply =
          reply_bytes r (length content) (count_blocks r.block_size (length content))
            (kept_epoch host now) in
        rw
          (
            negotiate_transfer,
            server_open-accepts host shared r name content now size room good
                (to_bytes 2 port ++ rest),
            open_port-reads network known created port port_fits rest room,
          )
          (ap (λ t. gives t rest room (some (served r now name content, port))) (append-nil reply))

    -- The round of a good request.
    round_transfers :
        (times : List ℕ)
        → let block_count = count_blocks r.block_size (length content) in
          handle_requests host size shared network
            (now ∷ times)
            (line_of_room (name ++ b'\n' ∷ request_bytes r (to_bytes 2 port ++ rest)) (21 + room))
          ≡ gives
              (reply_bytes r (length content) block_count (kept_epoch host now))
              rest
              room
              (some (served r now name content, port))
    unfolding handle_requests
    round_transfers times =
        or_else-returned (negotiate_transfer host size shared network now)
          (handle_requests host size shared network times)
          (line_of_room (name ++ b'\n' ∷ request_bytes r (to_bytes 2 port ++ rest)) (21 + room))
          (line_of_room rest room)
          (reply_bytes r (length content) (count_blocks r.block_size (length content))
            (kept_epoch host now))
          (some (served r now name content, port)) negotiate-transfers

    -- The server lists fewer than 2^16 files, whose names and sizes go through. A client asks any number
    -- of times for files that the server lacks, or for the list, and then makes a good request and
    -- names a port below 2^16; the server knows the address of the receiver and can create a socket,
    -- and the connection works. Then the server answers each in order, ends neither its process nor
    -- its loop, and goes into the transfer that the last request describes, to that port, with what
    -- follows on the connection unread.
    pub handle_requests-recovers :
        (errands : List (ℕ × Errand)) (times : List ℕ)
        → All (λ e. IsErrand shared e.1) errands
        → let block_count = count_blocks r.block_size (length content) in
          let last = name ++ b'\n' ∷ request_bytes r (to_bytes 2 port ++ rest) in
          handle_requests host size shared network (map (λ e. e.0) errands ++ now ∷ times) (
            line_of_room
              (all_asked errands last)
              (length (all_answered shared errands) + (21 + room)))
          ≡ gives
              (all_answered shared errands
                ++ reply_bytes r (length content) block_count (kept_epoch host now))
              rest
              room
              (some (served r now name content, port))
    handle_requests-recovers [] times fine =
        let room_left : 0 + (21 + room) ≡ 21 + room = omega arith in
        rw room_left (round_transfers times)
    handle_requests-recovers ((time, errand) ∷ errands) times (fine, others) =
        let answer = answered shared errand in
        let more = all_answered shared errands in
        let last = name ++ b'\n' ∷ request_bytes r (to_bytes 2 port ++ rest) in
        let reply =
          reply_bytes r (length content) (count_blocks r.block_size (length content))
            (kept_epoch host now) in
        let room_left : length (answer ++ more) + (21 + room)
            ≡ length answer + (length more + (21 + room)) =
          omega (arith, length-append answer more) in
        rw
          (
            room_left,
            round_fails network errand time (map (λ e. e.0) errands ++ now ∷ times)
                (all_asked errands last) (length more + (21 + room)) fine,
            handle_requests-recovers errands times others,
            append_assoc answer more reply,
          )
          refl
