-- ===== src/Proxy/Dns.antt =====
-- The query and the answer of `dns_query_over_tun0` of services/aimili-egress/proxy_server.py, as lists of
-- bytes. What the source keeps as an offset is here the part of the reply from there on, which is empty
-- where the offset is past the end.
use aimili_gateway.Prelude.{
  ℕ, ◌+◌, ◌*◌, ◌%◌, Text, Bool, not, ◌&&◌, ◌||◌, Option, none, some, List, [], ◌∷◌, ◌++◌, take,
  length, leb, ltb, ◌==◌, text_eq, is_empty, if◌then◌else◌,
}
use Prim.Native.Nat.{zero, suc}

abbrev pub Bytes : Type 0
Bytes = List ℕ

-- A slice from an offset on.
unfoldable pub drop : ℕ → Bytes → Bytes
drop zero xs = xs
drop (suc n) [] = []
drop (suc n) (x ∷ xs) = drop n xs

unfoldable pub byte_at : ℕ → Bytes → ℕ
byte_at zero [] = 0
byte_at zero (x ∷ xs) = x
byte_at (suc n) [] = 0
byte_at (suc n) (x ∷ xs) = byte_at n xs

-- `int.from_bytes(resp[i : i + 2], "big")`.
unfoldable pub word_at : ℕ → Bytes → ℕ
unfolding byte_at
word_at i xs = byte_at i xs * 256 + byte_at (i + 1) xs

-- `host.split(".")`, after the characters of a part that has begun.
unfoldable pub split_from : Text → Text → List Text
split_from part [] = part ∷ []
split_from part (c ∷ s) =
    let inside = split_from (part ++ c ∷ []) s in
    let outside = split_from [] s in if c == 46 then part ∷ outside else inside

unfoldable pub put_label : Bytes → Option Bytes → Option Bytes
put_label label none = none
put_label label (some rest) = some (length label ∷ (label ++ rest))

unfoldable pub encoded_label : Option Bytes → Option Bytes → Option Bytes
unfolding put_label
encoded_label none rest = none
encoded_label (some label) rest = if ltb 63 (length label) then none else put_label label rest

unfoldable pub packet : Bytes → ℕ → Option Bytes → Option Bytes
packet tx_id qtype none = none
packet tx_id qtype (some name) =
    some (tx_id ++ (1 ∷ 0 ∷ 0 ∷ 1 ∷ 0 ∷ 0 ∷ 0 ∷ 0 ∷ 0 ∷ 0 ∷ (name ++ (0 ∷ qtype ∷ 0 ∷ 1 ∷ []))))

module _ (idna : Text → Option Bytes) where
  -- The loop that makes `qname`; `none` is the early return and the exception of `encode("idna")`.
  unfoldable pub qname : List Text → Option Bytes
  unfolding encoded_label
  qname [] = some (0 ∷ [])
  qname (part ∷ parts) =
      let rest = qname parts in if is_empty part then rest else encoded_label (idna part) rest

  -- The packet; `qtype` is 1 or 28.
  unfoldable pub query : Bytes → Text → ℕ → Option Bytes
  unfolding qname split_from packet
  query tx_id host qtype = packet tx_id qtype (qname (split_from [] host))

-- The loop over a name. A byte has both upper bits set if it is at least 192.
unfoldable pub skip_name : ℕ → Bytes → Bytes
unfolding drop
skip_name zero xs = xs
skip_name (suc fuel) [] = []
skip_name (suc fuel) (n ∷ xs) =
    let rest = skip_name fuel (drop n xs) in
    if n == 0 then xs else if leb 192 n then drop 1 xs else rest

unfoldable pub is_asked : ℕ → Bytes → Bool
unfolding word_at
is_asked qtype xs =
    (word_at 0 xs == qtype && word_at 2 xs == 1)
    && ((qtype == 1 && word_at 8 xs == 4) || (qtype == 28 && word_at 8 xs == 16))

-- The loop over the answers; the result is the record, which the library prints as an address.
unfoldable pub read_answers : ℕ → ℕ → ℕ → Bytes → Option Bytes
unfolding skip_name drop word_at is_asked
read_answers zero fuel qtype xs = none
read_answers (suc count) fuel qtype xs =
    let record_part = skip_name fuel xs in
    let body = drop 10 record_part in
    let size = word_at 8 record_part in
    let rest = read_answers count fuel qtype (drop size body) in
    if is_empty xs
    then none
    else if ltb (length record_part) 10
    then none
    else if ltb (length body) size
    then none
    else if is_asked qtype record_part
    then some (take size body)
    else rest

unfoldable pub read_reply : Bytes → ℕ → Bytes → Option Bytes
unfolding skip_name drop byte_at word_at read_answers
read_reply tx_id qtype resp =
    if ltb (length resp) 12 || not (text_eq (take 2 resp) tx_id)
    then none
    else if not (byte_at 3 resp % 16 == 0)
    then none
    else read_answers (word_at 6 resp) (length resp) qtype
        (drop 4 (skip_name (length resp) (drop 12 resp)))
