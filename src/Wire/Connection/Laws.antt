-- ===== src/Wire/Connection/Laws.antt =====
-- The calls on a control connection that works.
use tsunami_udp.Prelude.{
  ℕ, zero, suc, ◌+◌, ◌-◌, ◌^◌, ◌≤◌, ◌<◌, ◌≡◌, refl, ap, sym, ◌∙◌, List, [], ◌∷◌, ◌++◌, arith,
  length, length-append, take, drop, le→ltb_false,
}
use tsunami_udp.Wire.{to_bytes, from_bytes, from_stored, Host, ntohll}
use tsunami_udp.Wire.Laws.{from_bytes-to_bytes, length-to_bytes, ntohll-from_stored}
use tsunami_udp.Wire.Connection.{
  Action, after, or_else, failed, fread_word64, Line, Ended, returned, Outcome, send, full_write,
  read_or,
}

pub take-append : (xs ys : List ℕ) → take (length xs) (xs ++ ys) ≡ xs
take-append [] ys = refl
take-append (x ∷ xs) ys = ap (λ t. x ∷ t) (take-append xs ys)

pub drop-append : (xs ys : List ℕ) → drop (length xs) (xs ++ ys) ≡ ys
drop-append [] ys = refl
drop-append (x ∷ xs) ys = drop-append xs ys

pub take_all {ℓ} : {A : Type ℓ} (room : ℕ) (xs : List A) → length xs ≤ room → take room xs ≡ xs
take_all zero [] h = refl
take_all zero (x ∷ xs) h = absurd (omega arith)
take_all (suc room) [] h = refl
take_all (suc room) (x ∷ xs) h = ap (λ t. x ∷ t) (take_all room xs (omega arith))

-- A call that returns, with what it sent and what is left of the connection.
abbrev pub gives {ℓ} : {A : Type ℓ} → List ℕ → List ℕ → ℕ → A → Outcome A
gives sent incoming room a = record {
  sent = sent;
  line = record { incoming = incoming; room = room };
  ended = returned a;
}

abbrev pub line_of_room : List ℕ → ℕ → Line
line_of_room incoming room = record { incoming = incoming; room = room }

-- The next bytes on the connection are read, whoever reads them.
pub read_or-bytes {ℓ} :
    {A : Type ℓ} (short : Ended A) (f : List ℕ → A) (bytes rest : List ℕ) (room : ℕ)
    → read_or short (length bytes) f (line_of_room (bytes ++ rest) room)
      ≡ gives [] rest room (f bytes)
unfolding read_or
read_or-bytes short f bytes rest room =
    let long =
      le→ltb_false (length (bytes ++ rest)) (length bytes)
        (omega (arith, length-append bytes rest)) in
    rw (long, take-append bytes rest, drop-append bytes rest) refl

pub read-to_bytes :
    (short : Ended ℕ) (k n : ℕ) (rest : List ℕ) (room : ℕ)
    → n < 256 ^ k
    → read_or short k (from_bytes 0) (line_of_room (to_bytes k n ++ rest) room)
      ≡ gives [] rest room n
read-to_bytes short k n rest room h =
    ap (λ m. read_or short m (from_bytes 0) (line_of_room (to_bytes k n ++ rest) room))
      (sym (length-to_bytes k n))
    ∙ read_or-bytes short (from_bytes 0) (to_bytes k n) rest room
    ∙ ap (λ v. gives [] rest room v) (from_bytes-to_bytes k n h)

-- The size of a file, as the client reads it.
pub read-size :
    (host : Host) (size : ℕ) (rest : List ℕ) (room : ℕ)
    → size < 2 ^ 64
    → fread_word64 host (line_of_room (to_bytes 8 size ++ rest) room) ≡ gives [] rest room size
read-size host size rest room h =
    let f = λ (bytes : List ℕ). ntohll host (from_stored host bytes) in
    ap (λ m. read_or failed m f (line_of_room (to_bytes 8 size ++ rest) room))
      (sym (length-to_bytes 8 size))
    ∙ read_or-bytes failed f (to_bytes 8 size) rest room
    ∙ ap (λ v. gives [] rest room v) (ntohll-from_stored host size h)

module _ (bytes incoming : List ℕ) (room left : ℕ) (fits : room ≡ length bytes + left) where
  pub full_write-room : full_write bytes (line_of_room incoming room) ≡ gives bytes incoming left tt
  unfolding full_write
  full_write-room =
      let e : room - length bytes ≡ left = omega (arith, fits) in
      rw (take_all room bytes (omega (arith, fits)), e) refl

  pub send-room : send bytes (line_of_room incoming room) ≡ gives bytes incoming left tt
  unfolding send
  send-room =
      let e : room - length bytes ≡ left = omega (arith, fits) in
      rw
        (
          take_all room bytes (omega (arith, fits)),
          e,
          le→ltb_false room (length bytes) (omega (arith, fits)),
        )
        refl

-- After a failure, and after a success.
pub or_else-failed {ℓ} :
    {A : Type ℓ} (m next : Action A) (line left : Line) (sent : List ℕ)
    → m line ≡ record { sent = sent; line = left; ended = failed }
    → or_else m next line ≡ after sent (next left)
or_else-failed m next line left sent h = rw (or_else, h) (ap (λ o. after o.sent (next o.line)) h)

pub or_else-returned {ℓ} :
    {A : Type ℓ} (m next : Action A) (line left : Line) (sent : List ℕ) (a : A)
    → m line ≡ record { sent = sent; line = left; ended = returned a }
    → or_else m next line ≡ record { sent = sent; line = left; ended = returned a }
or_else-returned m next line left sent a h = rw (or_else, h) h

-- Nothing is left to read.
pub read_or-end {ℓ} :
    {A : Type ℓ} (short : Ended A) (n : ℕ) (f : List ℕ → A) (room : ℕ)
    → read_or short (suc n) f (line_of_room [] room)
      ≡ record { sent = []; line = line_of_room [] room; ended = short }
unfolding read_or
read_or-end short n f room = ground arith
