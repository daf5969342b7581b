-- ===== src/Negotiation/Refusal.antt =====
-- When ttp_open_transfer does not succeed: a file that is not there, a request with a 0, and a
-- connection that ends early.
use tsunami_udp.Prelude.{
  ℕ, ◌+◌, ◌<◌, ◌≡◌, ◌⊎◌, inl, inr, ==_iff, refl, Bool, false, List, [], ◌∷◌, ◌++◌, ◌==◌, Bool-cases,
  arith, length, length-append, length-drop, append-nil, drop, none, some,
}
use tsunami_udp.Wire.{Host}
use tsunami_udp.Wire.Connection.{
  Line, Action, Outcome, then_with, full_write, failed, faults, hangs, read_or,
}
use tsunami_udp.Wire.Connection.Laws.{full_write-room, send-room, line_of_room}
use tsunami_udp.Wire.Connection.Lines.{IsPlain, read_byte, read_line-newline}
use tsunami_udp.Negotiation.{
  Request, Shared, Serving, read_request, answer_if, respond, set_delay, serve_file, serve,
  server_open, client_open, max_filename_length, same_text, dirlist_command, not_found,
}
use tsunami_udp.Negotiation.Accept.{request_bytes, IsRequest, read_request-bytes}

-- The name of one file, which goes through in one line.
pub record IsName (name : List ℕ) : Type 0 where
  pub plain : IsPlain name
  pub short : length name < max_filename_length
  pub no_list : same_text name dirlist_command ≡ false
  pub no_star : same_text name (b'*' ∷ []) ≡ false

answer_if-zero :
    (host : Host) (now : ℕ) (name content : List ℕ) (r : Request) (line : Line)
    → (r.block_size ≡ 0) ⊎ (r.target_rate ≡ 0)
    → (answer_if host now name content r line).ended ≡ faults
unfolding answer_if respond set_delay full_write
answer_if-zero host now name content r line (inl e) = rw e refl
answer_if-zero host now name content r line (inr e) = elim (Bool-cases (r.block_size == 0)) [
  | inl zero_size ↦ rw zero_size refl
  | inr nonzero ↦ rw (nonzero, (==_iff r.target_rate 0).1 e) refl
]

hangs_through :
    (o : Outcome Request) (f : Request → Action Serving)
    → o.ended ≡ hangs
    → (then_with o f).ended ≡ hangs
hangs_through o f e = rw (then_with, e) refl

-- The parameters are 20 bytes.
read_request-hangs :
    (xs : List ℕ) (room : ℕ) → length xs < 20 → (read_request (line_of_room xs room)).ended ≡ hangs
unfolding read_request read_or
read_request-hangs xs room h =
    let xs4 = drop 4 xs in
    let xs8 = drop 4 xs4 in
    let xs12 = drop 4 xs8 in
    let xs14 = drop 2 xs12 in
    let xs16 = drop 2 xs14 in
    let xs18 = drop 2 xs16 in
    ground (
      arith,
      h,
      length-drop 4 xs,
      length-drop 4 xs4,
      length-drop 4 xs8,
      length-drop 2 xs12,
      length-drop 2 xs14,
      length-drop 2 xs16,
    )

module _ (host : Host) (shared : Shared) (name : List ℕ) (now size : ℕ) (n : IsName name) where
  -- The name brings the server to the file.
  pub server_open-name :
      (rest : List ℕ) (room : ℕ)
      → server_open host now size shared (line_of_room (name ++ b'\n' ∷ rest) room)
        ≡ serve_file host now shared name (line_of_room rest room)
  unfolding server_open serve
  server_open-name rest room =
      rw
        (
          server_open,
          read_line-newline max_filename_length name rest room n.plain n.short,
          serve,
          n.no_list,
          n.no_star,
        )
        refl

  -- A server without the file answers with a byte that is not 0 and fails; the client, given that answer,
  -- has sent the name and nothing after it, and fails too. The name has no zero and no newline, fits the
  -- buffer, and is neither `*` nor the request for a list.
  pub open-refused :
      (writable : List ℕ → Bool) (local : List ℕ) (r : Request) (room : ℕ)
      → shared.content name ≡ none
      → let from_client = name ++ b'\n' ∷ [] in
        let client =
          client_open host writable name local r
            (line_of_room not_found (length name + 1 + room)) in
        let server = server_open host now size shared (line_of_room from_client (1 + room)) in
        (client.sent ≡ from_client)
        × (server.sent ≡ not_found)
        × (client.ended ≡ failed)
        × (server.ended ≡ failed)
  unfolding client_open serve_file
  open-refused writable local r room missing =
      let client =
        send-room (name ++ b'\n' ∷ []) not_found (length name + 1 + room) room
          (omega (arith, length-append name (b'\n' ∷ []))) in
      let reply = read_byte failed 8 [] room in
      let server = server_open-name [] (1 + room) in
      let write = full_write-room not_found [] (1 + room) room (omega arith) in
      (
        rw (client_open, client, reply, append-nil (name ++ b'\n' ∷ [])) refl,
        rw (server, serve_file, missing, write) refl,
        rw (client_open, client, reply) refl,
        rw (server, serve_file, missing, write) refl,
      )

  module _ (content : List ℕ) (there : shared.content name ≡ some content) where
    -- A request for a file of the server whose block size is 0 is a division by 0 on the server, after the
    -- request was accepted; so is one whose rate is 0. The name is as for open-refused, and the
    -- parameters fit their types.
    pub open-zero :
        (r : Request) (room : ℕ)
        → IsRequest r
        → (r.block_size ≡ 0) ⊎ (r.target_rate ≡ 0)
        → let server =
            server_open host now size shared
              (line_of_room (name ++ b'\n' ∷ request_bytes r []) (21 + room)) in
          server.ended ≡ faults
    unfolding serve_file
    open-zero r room w zeros =
        rw
          (
            server_open-name (request_bytes r []) (21 + room),
            serve_file,
            there,
            full_write-room (0 ∷ []) (request_bytes r []) (21 + room) (20 + room) (omega arith),
            read_request-bytes r [] (20 + room) w,
          )
          (answer_if-zero host now name content r (line_of_room [] (20 + room)) zeros)

    -- When the client goes away after its request for a file of the server, before all of its 20 bytes of
    -- parameters were sent, the server never gives up: it reads for ever. The name is as for open-refused.
    pub open-cut_off :
        (parameters : List ℕ) (room : ℕ)
        → length parameters < 20
        → (server_open host now size shared
            (line_of_room (name ++ b'\n' ∷ parameters) (1 + room))).ended
          ≡ hangs
    unfolding serve_file
    open-cut_off parameters room cut =
        let e = read_request-hangs parameters room cut in
        rw
          (
            server_open-name parameters (1 + room),
            serve_file,
            there,
            full_write-room (0 ∷ []) parameters (1 + room) room (omega arith),
          )
          (hangs_through (read_request (line_of_room parameters room))
            (answer_if host now name content) e)
