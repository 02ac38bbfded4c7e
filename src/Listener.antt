-- ===== src/Listener.antt =====
-- http_listener.go: the listener that tells an HTTP connection from a TLS one by its first line, and the
-- reader that keeps what was read for it.
pub mod Head
pub mod Kept
pub mod Line
pub mod Stuck
pub mod Host
pub mod Tests
use go_openbmclapi.Prelude.{
  ℕ, zero, suc, ◌+◌, ◌-◌, String, Bool, true, false, ◌&&◌, ◌||◌, not, Option, none, some, List, [],
  ◌∷◌, ◌++◌, ltb, leb, ◌==◌, if◌then◌else◌, length, take, drop,
}
use go_openbmclapi.Prelude.Eq.{string_eq}

-- The bytes of a connection, or of a buffer.
abbrev pub Buffer : Type 0
Buffer = List ℕ

-- A connection: the chunks that its reads are to give, and an error after them. A read gives the next
-- chunk, or as much of it as the buffer has room for.
abbrev pub Conn : Type 0
Conn = List Buffer

unfoldable pub stream : Conn → Buffer
stream [] = []
stream (chunk ∷ rest) = chunk ++ stream rest

-- c.Conn.Read(buf) with room for `size` bytes; none is the error. A Read of the net package with no room
-- gives no byte and no error, also at the end of the connection.
unfoldable pub conn_read : ℕ → Conn → Option Buffer × Conn
conn_read size [] = if size == 0 then (some [], []) else (none, [])
conn_read size (chunk ∷ rest) =
    if size == 0
    then (some [], chunk ∷ rest)
    else if leb (length chunk) size
    then (some chunk, rest)
    else (some (take size chunk), drop size chunk ∷ rest)

-- connHeadReader; headi is how much of the head has been read again.
pub record ConnHeadReader : Type 0 where
  pub conn : Conn
  pub head : Buffer
  pub headi : ℕ
  pub head_done : Bool

abbrev pub new_reader : Conn → ConnHeadReader
new_reader conn = record { conn = conn; head = []; headi = 0; head_done = false }

abbrev pub read_bytes : Option Buffer → Buffer
read_bytes none = []
read_bytes (some bytes) = bytes

-- ReadForHead with room for `size` bytes; none is the panic after the content has begun to be read.
unfoldable pub read_for_head : ℕ → ConnHeadReader → Option (Option Buffer × ConnHeadReader)
unfolding conn_read
read_for_head size c =
    let (answer, conn) = conn_read size c.conn in
    if c.head_done
    then none
    else some (answer, record c { conn = conn; head = c.head ++ read_bytes answer })

-- Read with room for `size` bytes.
unfoldable pub read : ℕ → ConnHeadReader → Option Buffer × ConnHeadReader
unfolding conn_read
read size c =
    if ltb c.headi (length c.head)
    then (
      some (take size (drop c.headi c.head)),
      record c { headi = c.headi + length (take size (drop c.headi c.head)) },
    )
    else (let (answer, conn) = conn_read size c.conn in
        (
          answer,
          (if c.head_done
              then record c { conn = conn }
              else record c { conn = conn; head = []; head_done = true }),
        ))

-- What a look at the bytes that are read so far tells.
pub data Look : Type 0 where
  -- the end of the first line, after so many bytes
  line_ends : ℕ → Look
  not_http : Look
  wants_more : Look

abbrev pub carriage_return : ℕ
carriage_return = 13

-- The inner loop, from the byte `i` on.
unfoldable pub look : ℕ → Buffer → Look
look i [] = wants_more
look i (b ∷ buf) =
    let rest = look (i + 1) buf in
    if b == carriage_return
    then line_ends i
    else if ltb b 0x20 || ltb 0x7e b
    then not_http
    else rest

abbrev pub buffer_size : ℕ
buffer_size = 4096

-- What READ_HEAD ends with: the first line, no HTTP, or the panic of ReadForHead.
pub data HeadLine : Type 0 where
  head_line : Buffer → HeadLine
  no_http : HeadLine
  panics : HeadLine

-- READ_HEAD; `buf` are the bytes read so far, all of which have been looked at. none is the end of the
-- fuel.
unfoldable pub read_head : ℕ → Buffer → ConnHeadReader → Option (HeadLine × ConnHeadReader)
unfolding read_for_head look
read_head zero buf c = none
read_head (suc fuel) buf c = elim (read_for_head (buffer_size - length buf) c) [
  | none ↦ some (panics, c)
  | some (none, after) ↦ some (no_http, after)
  | some (some bytes, after) ↦
      (let again = read_head fuel (buf ++ bytes) after in
        elim (look (length buf) bytes) [
          | line_ends i ↦ some (head_line (take i (buf ++ bytes)), after)
          | not_http ↦ some (no_http, after)
          | wants_more ↦ again
        ])
]

-- bytes.Cut at a byte.
unfoldable pub cut : ℕ → Buffer → Buffer × Buffer
cut sep [] = ([], [])
cut sep (b ∷ buf) =
    let (before, after) = cut sep buf in if b == sep then ([], buf) else (b ∷ before, after)

abbrev pub is_empty : Buffer → Bool
is_empty [] = true
is_empty (b ∷ buf) = false

-- The test of the first line; the parsers of the version and of the URL are those of net/http and
-- net/url.
unfoldable pub is_request_line : (Buffer → Bool) → (Buffer → Bool) → Buffer → Bool
unfolding cut
is_request_line parse_http_version parse_request_uri line =
    let (method, rest) = cut 0x20 line in
    let (uurl, proto) = cut 0x20 rest in
    if is_empty method || is_empty uurl || is_empty proto
    then false
    else parse_http_version proto && parse_request_uri uurl

-- maybeHTTPConn
-- The inner none is the panic, the outer one the end of the fuel.
unfoldable pub maybe_http_conn :
    (Buffer → Bool)
    → (Buffer → Bool)
    → List String
    → ℕ
    → ConnHeadReader
    → Option (Option Bool × ConnHeadReader)
unfolding read_head is_request_line
maybe_http_conn parse_http_version parse_request_uri [] fuel c = some (some false, c)
maybe_http_conn parse_http_version parse_request_uri (host ∷ hosts) fuel c =
    elim (read_head fuel [] c) [
      | none ↦ none
      | some (head_line line, after) ↦
          some (some (is_request_line parse_http_version parse_request_uri line), after)
      | some (no_http, after) ↦ some (some false, after)
      | some (panics, after) ↦ some (none, after)
    ]
