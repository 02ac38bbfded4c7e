-- ===== src/Listener/Line.antt =====
-- The first line that the listener finds does not depend on how its bytes arrive.
use go_openbmclapi.Prelude.{
  ℕ, ◌+◌, ◌-◌, ◌≤◌, ◌<◌, ◌≢◌, ◌≡◌, ap, Bool, false, Option, none, some, List, [], ◌∷◌, ◌++◌, arith,
  length, take, suc,
}
use go_openbmclapi.Listener.{
  Buffer, Conn, conn_read, ConnHeadReader, read_for_head, is_request_line, Look, line_ends,
  not_http, wants_more, look, HeadLine, head_line, no_http, panics,
}

shift : (i n : ℕ) → (i + 1) + n ≡ i + suc n
shift i n = omega arith

look-append :
    (i : ℕ) (a b : Buffer) → look i a ≡ wants_more → look i (a ++ b) ≡ look (i + length a) b
unfolding look
look-append i [] b h = ground arith
look-append i (x ∷ a) b h =
    ground (arith, h, look-append (i + 1) a b, ap (λ (k : ℕ). look k b) (shift i (length a)))

-- The first line of all the bytes.
unfoldable pub first_line : Buffer → HeadLine
unfolding look
first_line bytes = elim (look 0 bytes) [
  | line_ends i ↦ head_line (take i bytes)
  | not_http ↦ no_http
  | wants_more ↦ no_http
]

abbrev line_of : Option (HeadLine × ConnHeadReader) → Option HeadLine
line_of none = none
line_of (some (line, after)) = some line

-- A chunk that fits is read whole.
pub read_for_head-whole :
    (size : ℕ) (c : ConnHeadReader) (chunk : Buffer) (rest : Conn)
    → c.conn ≡ chunk ∷ rest
    → c.head_done ≡ false
    → length chunk ≤ size
    → size ≢ 0
    → read_for_head size c ≡ some (some chunk, record c { conn = rest; head = c.head ++ chunk })
unfolding read_for_head conn_read
read_for_head-whole size c chunk rest at fresh fits has_room =
    ground (arith, at, fresh, fits, has_room)

pub look_at :
    (buf chunk : Buffer) → look 0 buf ≡ wants_more → look 0 (buf ++ chunk) ≡ look (length buf) chunk
look_at buf chunk more = ground (arith, look-append 0 buf chunk more)

has_room : (a d : ℕ) → a + d < 4096 → 4096 - a ≢ 0
has_room a d le = λ full. omega (arith, full, le)

abbrev line_at : Look → Buffer → HeadLine
line_at (line_ends i) bytes = head_line (take i bytes)
line_at not_http bytes = no_http
line_at wants_more bytes = no_http

module _ (parse_http_version parse_request_uri : Buffer → Bool) where
  -- Whether a first line is that of an HTTP request.
  unfoldable pub is_http : HeadLine → Bool
  is_http (head_line line) = is_request_line parse_http_version parse_request_uri line
  is_http no_http = false
  is_http panics = false

  as_answer : Option HeadLine → Option (Option Bool)
  as_answer none = none
  as_answer (some line) = some (some (is_http line))

  abbrev pub answer_of : Option (Option Bool × ConnHeadReader) → Option (Option Bool)
  answer_of none = none
  answer_of (some (answer, after)) = some answer

  abbrev on_line : Option (HeadLine × ConnHeadReader) → Option (Option Bool × ConnHeadReader)
  on_line none = none
  on_line (some (head_line line, after)) =
      some (some (is_request_line parse_http_version parse_request_uri line), after)
  on_line (some (no_http, after)) = some (some false, after)
  on_line (some (panics, after)) = some (none, after)
