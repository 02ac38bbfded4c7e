-- ===== src/Listener/Stuck.antt =====
-- A first line that fills the buffer.
use go_openbmclapi.Prelude.{
  ℕ, ◌-◌, ◌≡◌, ap, refl, Bool, false, none, some, List, [], ◌∷◌, ◌++◌, arith, length, length-append,
  suc, zero, String, ◌∙◌,
}
use go_openbmclapi.Listener.{
  Buffer, Conn, conn_read, ConnHeadReader, new_reader, read_for_head, look, wants_more, look,
  read_head, maybe_http_conn,
}
use go_openbmclapi.Listener.Kept.{head_step}
use go_openbmclapi.Listener.Line.{read_for_head-whole}

-- A read with no room gives no byte, and no error.
read_for_head-no_room :
    (c : ConnHeadReader) (rest : Conn)
    → c.conn ≡ rest
    → c.head_done ≡ false
    → read_for_head 0 c ≡ some (some [], record c { conn = rest; head = c.head ++ [] })
unfolding read_for_head conn_read
read_for_head-no_room c [] at fresh = ground (arith, at, fresh)
read_for_head-no_room c (chunk ∷ rest) at fresh = ground (arith, at, fresh)

no_room : (n : ℕ) → n ≡ 4096 → 4096 - n ≡ 0
no_room n full = omega (arith, full)

full_never_ends :
    (fuel : ℕ) (buf : Buffer) (c : ConnHeadReader) (rest : Conn)
    → length buf ≡ 4096
    → c.conn ≡ rest
    → c.head_done ≡ false
    → read_head fuel buf c ≡ none
unfolding read_head look
full_never_ends zero buf c rest full at fresh = refl
full_never_ends (suc fuel) buf c rest full at fresh =
    ap (λ (size : ℕ). head_step fuel buf c (read_for_head size c)) (no_room (length buf) full)
    ∙ (ap (head_step fuel buf c) (read_for_head-no_room c rest at fresh)
        ∙ full_never_ends fuel (buf ++ []) (record c { conn = rest; head = c.head ++ [] }) rest
            (omega (arith, full, length-append buf [])) refl fresh)

-- Where a connection sends 4096 printable bytes that are no line's end, whatever follows them, maybeHTTPConn
-- on a listener with public hosts never ends, if these bytes arrive together: its buffer is full, and each
-- further read has no room.
pub maybe_http_conn-stuck :
    (parse_http_version parse_request_uri : Buffer → Bool) (host : String) (hosts : List String)
    (line : Buffer) (rest : Conn) (fuel : ℕ)
    → length line ≡ 4096
    → look 0 line ≡ wants_more
    → maybe_http_conn parse_http_version parse_request_uri
        (host ∷ hosts)
        fuel
        (new_reader (line ∷ rest))
      ≡ none
unfolding maybe_http_conn read_head
maybe_http_conn-stuck v u host hosts line rest zero full more = refl
maybe_http_conn-stuck v u host hosts line rest (suc fuel) full more = ground (
  arith,
  more,
  read_for_head-whole 4096 (new_reader (line ∷ rest)) line rest refl refl (omega (arith, full))
      (λ none_left. omega (arith, none_left)),
  full_never_ends fuel line (record { conn = rest; head = line; headi = 0; head_done = false }) rest
      full refl refl,
)
