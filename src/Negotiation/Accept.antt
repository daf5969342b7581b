-- ===== src/Negotiation/Accept.antt =====
-- What ttp_open_transfer in tsunami-udp/server/protocol.c sends for a file that it has.
use tsunami_udp.Prelude.{
  ℕ, ◌+◌, ◌*◌, ◌/◌, ◌%◌, ◌^◌, ◌<◌, ◌≡◌, refl, false, List, [], ◌∷◌, ◌++◌, ◌==◌, ne→==_false, arith,
  length, some,
}
use tsunami_udp.Wire.{to_bytes, Host}
use tsunami_udp.Wire.Laws.{length-to_bytes, stored-htonll}
use tsunami_udp.Wire.Connection.{returned, hangs}
use tsunami_udp.Wire.Connection.Laws.{read-to_bytes, full_write-room, line_of_room, gives}
use tsunami_udp.Negotiation.Epoch.{kept_epoch, epoch_bytes-eq}
use tsunami_udp.Negotiation.{
  Request, Shared, Serving, read_request, count_blocks, set_delay, respond, answer_if, serve_file,
}

-- The parameters in the order in which they are sent.
abbrev pub request_bytes : Request → List ℕ → List ℕ
request_bytes r rest =
    to_bytes 4 r.block_size
    ++ (to_bytes 4 r.target_rate
        ++ (to_bytes 4 r.error_rate
            ++ (to_bytes 2 r.slower_num
                ++ (to_bytes 2 r.slower_den
                    ++ (to_bytes 2 r.faster_num ++ (to_bytes 2 r.faster_den ++ rest))))))

-- The fields of the request are words of the widths that the source declares.
pub record IsRequest (r : Request) : Type 0 where
  pub block_size_fits : r.block_size < 2 ^ 32
  pub target_rate_fits : r.target_rate < 2 ^ 32
  pub error_rate_fits : r.error_rate < 2 ^ 32
  pub slower_num_fits : r.slower_num < 2 ^ 16
  pub slower_den_fits : r.slower_den < 2 ^ 16
  pub faster_num_fits : r.faster_num < 2 ^ 16
  pub faster_den_fits : r.faster_den < 2 ^ 16

-- The server reads the parameters back as they were submitted.
pub read_request-bytes :
    (r : Request) (rest : List ℕ) (room : ℕ)
    → IsRequest r
    → read_request (line_of_room (request_bytes r rest) room) ≡ gives [] rest room r
unfolding read_request
read_request-bytes r rest room w =
    rw
      (
        read-to_bytes hangs 4 r.block_size _ room w.block_size_fits,
        read-to_bytes hangs 4 r.target_rate _ room w.target_rate_fits,
        read-to_bytes hangs 4 r.error_rate _ room w.error_rate_fits,
        read-to_bytes hangs 2 r.slower_num _ room w.slower_num_fits,
        read-to_bytes hangs 2 r.slower_den _ room w.slower_den_fits,
        read-to_bytes hangs 2 r.faster_num _ room w.faster_num_fits,
        read-to_bytes hangs 2 r.faster_den rest room w.faster_den_fits,
      )
      refl

-- The reply to a request that is accepted, with the epoch as it goes over the wire.
abbrev pub reply_bytes : Request → ℕ → ℕ → ℕ → List ℕ
reply_bytes r file_size block_count epoch =
    0 ∷ to_bytes 8 file_size
    ++ (to_bytes 4 r.block_size ++ (to_bytes 4 block_count ++ (to_bytes 4 epoch ++ [])))

-- The end of the negotiation on the server.
abbrev pub served : Request → ℕ → List ℕ → List ℕ → Serving
served r now filename content =
    let ipd_time = 8000000 * r.block_size / r.target_rate % 2 ^ 32 in
    record {
      filename = filename;
      content = content;
      request = r;
      file_size = length content;
      block_count = count_blocks r.block_size (length content);
      epoch = now;
      ipd_time = ipd_time;
      ipd_current = ipd_time * 3 % 2 ^ 32;
    }

pub pos→==_false : (n : ℕ) → 0 < n → (n == 0) ≡ false
pos→==_false n h = ne→==_false n 0 (λ e. omega (arith, e))

module _ (host : Host) (r : Request) (now room : ℕ) (filename content rest : List ℕ)
    (block_size_pos : 0 < r.block_size) (target_rate_pos : 0 < r.target_rate)
    (size_fits : length content < 2 ^ 64) (now_fits : now < 2 ^ 32) where
  respond-accepts : respond host now filename content r (line_of_room rest (20 + room)) ≡ record {
    sent =
        to_bytes 8 (length content)
        ++ (to_bytes 4 r.block_size
            ++ (to_bytes 4 (count_blocks r.block_size (length content))
                ++ (to_bytes 4 (kept_epoch host now) ++ [])));
    line = line_of_room rest room;
    ended = returned (served r now filename content);
  }
  unfolding respond set_delay
  respond-accepts =
      let count = count_blocks r.block_size (length content) in
      rw
        (
          respond,
          stored-htonll host (length content) size_fits,
          full_write-room (to_bytes 8 (length content)) rest (20 + room) (12 + room)
              (omega (arith, length-to_bytes 8 (length content))),
          full_write-room (to_bytes 4 r.block_size) rest (12 + room) (8 + room)
              (omega (arith, length-to_bytes 4 r.block_size)),
          full_write-room (to_bytes 4 count) rest (8 + room) (4 + room)
              (omega (arith, length-to_bytes 4 count)),
          epoch_bytes-eq host now now_fits,
          full_write-room (to_bytes 4 (kept_epoch host now)) rest (4 + room) room
              (omega (arith, length-to_bytes 4 (kept_epoch host now))),
          set_delay,
          pos→==_false r.target_rate target_rate_pos,
        )
        refl

  -- What the server does once it has the name, with what it sends.
  pub serve_file-accepts :
      (shared : Shared)
      → shared.content filename ≡ some content
      → IsRequest r
      → serve_file host now shared filename (line_of_room (request_bytes r rest) (21 + room))
        ≡ record {
          sent =
              reply_bytes r
                (length content)
                (count_blocks r.block_size (length content))
                (kept_epoch host now);
          line = line_of_room rest room;
          ended = returned (served r now filename content);
        }
  unfolding serve_file answer_if
  serve_file-accepts shared there w =
      rw
        (
          serve_file,
          there,
          full_write-room (0 ∷ []) (request_bytes r rest) (21 + room) (20 + room) (omega arith),
          read_request-bytes r rest (20 + room) w,
          answer_if,
          pos→==_false r.block_size block_size_pos,
          respond-accepts,
        )
        refl
