-- ===== src/UdpErrors/Tests.antt =====
-- A short /proc/net/snmp.
use tsunami_udp.Prelude.{ℕ, ◌≡◌, refl, true, List, [], ◌∷◌, ◌++◌, some, arith}
use tsunami_udp.Decimal.{digits}
use tsunami_udp.UdpErrors.{contains, is_header, get_udp_in_errors}
use tsunami_udp.UdpErrors.Laws.{IsLine, IsOther, IsWord, lines, values, get_udp_in_errors-values}

abbrev udp : List ℕ
udp = b'U' ∷ b'd' ∷ b'p' ∷ b':' ∷ []

abbrev other : List ℕ
other = b'I' ∷ b'p' ∷ b':' ∷ b' ' ∷ b'1' ∷ []

abbrev header : List ℕ
header = udp ++ (b' ' ∷ b'I' ∷ b'n' ∷ b'E' ∷ b'r' ∷ b'r' ∷ b'o' ∷ b'r' ∷ b's' ∷ [])

other-IsOther : IsOther other
unfolding contains tsunami_udp.UdpErrors.starts_with
other-IsOther = (ground arith, refl)

header-IsLine : IsLine header
header-IsLine = ground arith

header-found : is_header (header ++ b'\n' ∷ []) ≡ true
unfolding contains tsunami_udp.UdpErrors.starts_with
header-found = refl

udp-IsWord : IsWord udp
udp-IsWord = ground arith

abbrev seven : List ℕ
seven = b'7' ∷ []

seven-IsWord : IsWord seven
seven-IsWord = ground arith

abbrev line : List ℕ
line = values udp seven seven 4244 seven

line-IsLine : IsLine line
unfolding digits tsunami_udp.Decimal.digits_from
line-IsLine = ground arith

get_udp_in_errors-values_example :
    get_udp_in_errors (some (lines (other ∷ []) (header ++ b'\n' ∷ (line ++ b'\n' ∷ []))))
    ≡ some 4244
get_udp_in_errors-values_example =
    get_udp_in_errors-values (other ∷ []) header udp seven seven seven [] 4244 (other-IsOther, tt)
      header-IsLine header-found udp-IsWord seven-IsWord seven-IsWord (omega arith) line-IsLine
