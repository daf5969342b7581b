-- ===== src/Client/Requests/Repeat.antt =====
-- What ttp_repeat_retransmit sends, and what it leaves of the table.
use tsunami_udp.Prelude.{
  ℕ, zero, suc, ◌-◌, ◌≤◌, ◌<◌, ◌≡◌, refl, ap, min, Bool, true, List, [], ◌∷◌, if◌then◌else◌, get_or,
  take, length, map, arith,
}
use tsunami_udp.Prelude.Words.{add32}
use tsunami_udp.Protocol.{ok, failed, request_restart_type}
use tsunami_udp.Bitmap.{got_block}
use tsunami_udp.Client.Transfer.{Transfer, max_retransmission_buffer}
use tsunami_udp.Client.Requests.{Control, compacted, retransmission, repeat_retransmit}
use tsunami_udp.Client.Requests.Compact.{segment, keep, IsPurged, compacted-IsPurged}

-- The blocks in the table that are still missing, in the table's order.
unfoldable pub still_missing : Transfer → List ℕ
still_missing t =
    keep (got_block t.block_count t.received) (segment t.retransmit.table 0 t.retransmit.index_max)

take_all : (n : ℕ) (xs : List ℕ) → length xs ≤ n → take n xs ≡ xs
take_all zero [] h = refl
take_all zero (x ∷ xs) h = absurd (omega arith)
take_all (suc n) [] h = refl
take_all (suc n) (x ∷ xs) h = ap (λ t. x ∷ t) (take_all n xs (omega arith))

module _ (io : Control) (t : Transfer) (fits : t.retransmit.index_max ≤ length t.retransmit.table)
    (written : io.write ≡ true) where
  abbrev got : ℕ → Bool
  got = got_block t.block_count t.received

  abbrev purge : IsPurged got t.retransmit (compacted got t.retransmit)
  purge = compacted-IsPurged got t.retransmit fits

  empty : (xs : List ℕ) → length xs ≡ 0 → map retransmission xs ≡ []
  empty [] h = refl
  empty (x ∷ xs) h = absurd (omega arith)

  -- With the entries in use inside the table, the connection writable, and fewer than 2048 blocks
  -- still missing, exactly these are requested, in order, and they are what the table is left with;
  -- no restart is asked for.
  pub repeat_retransmit-requests :
      length (still_missing t) < max_retransmission_buffer
      → let (s, t', sent) = repeat_retransmit io t in
        (sent ≡ map retransmission (still_missing t))
        × (segment t'.retransmit.table 0 t'.retransmit.index_max ≡ still_missing t)
        × (t'.restart_pending ≡ t.restart_pending)
        × (t'.next_block ≡ t.next_block)
        × (s ≡ (if io.flush then ok else failed))
  unfolding repeat_retransmit still_missing
  repeat_retransmit-requests few = ground (
    arith,
    purge.blocks,
    purge.count,
    purge.front,
    take_all max_retransmission_buffer (still_missing t),
    empty (still_missing t),
  )

  -- With the entries in use inside the table, the connection writable, and 2048 or more blocks
  -- still missing, one restart request is sent, for the first block past the gapless part or the
  -- last block; the table is emptied, and its last entry is kept as the end of the restart.
  pub repeat_retransmit-restart :
      max_retransmission_buffer ≤ length (still_missing t)
      → let (s, t', sent) = repeat_retransmit io t in
        let block = min t.block_count (add32 t.gapless_to_block 1) in
        (sent ≡ record { request_type = request_restart_type; block = block; error_rate = 0 } ∷ [])
        × (t'.retransmit.index_max ≡ 0)
        × (t'.restart_pending ≡ true)
        × (t'.next_block ≡ block)
        × (t'.restart_lastidx ≡ get_or t.retransmit.table (t.retransmit.index_max - 1) 0)
        × (s ≡ (if io.flush then ok else failed))
  unfolding repeat_retransmit still_missing
  repeat_retransmit-restart many = ground (arith, purge.count, purge.last)
