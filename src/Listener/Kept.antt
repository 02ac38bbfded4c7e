-- ===== src/Listener/Kept.antt =====
-- What maybeHTTPConn leaves of a connection.
use mathlib.Core.Path.{subst}
use go_openbmclapi.Prelude.{
  ℕ, ◌-◌, ◌≡◌, ◌∙◌, sym, refl, Bool, false, Option, none, some, List, [], ◌∷◌, ◌++◌, arith, length,
  take, suc, zero, String,
}
use go_openbmclapi.Listener.{
  Buffer, Conn, stream, ConnHeadReader, new_reader, is_request_line, maybe_http_conn, Look,
  line_ends, not_http, wants_more, look, HeadLine, head_line, no_http, panics, read_head,
  buffer_size,
}
use go_openbmclapi.Listener.Head.{pending, IsSane, read_for_head-pending, reads, reads-pending}

-- READ_HEAD leaves what is to be read as it was, and does not panic.
unfoldable pub Keeps : Buffer → Option (HeadLine × ConnHeadReader) → Type 0
unfolding IsSane pending
Keeps bytes none = Unit
Keeps bytes (some (head_line line, after)) = IsSane after × (pending after ≡ bytes)
Keeps bytes (some (no_http, after)) = IsSane after × (pending after ≡ bytes)
Keeps bytes (some (panics, after)) = ⊥

abbrev pub look_step :
    (ConnHeadReader → Option (HeadLine × ConnHeadReader))
    → Buffer
    → ConnHeadReader
    → Look
    → Option (HeadLine × ConnHeadReader)
look_step again buf after (line_ends i) = some (head_line (take i buf), after)
look_step again buf after not_http = some (no_http, after)
look_step again buf after wants_more = again after

abbrev pub head_step :
    ℕ
    → Buffer
    → ConnHeadReader
    → Option (Option Buffer × ConnHeadReader)
    → Option (HeadLine × ConnHeadReader)
head_step fuel buf c none = some (panics, c)
head_step fuel buf c (some (none, after)) = some (no_http, after)
head_step fuel buf c (some (some bytes, after)) =
    look_step (read_head fuel (buf ++ bytes)) (buf ++ bytes) after (look (length buf) bytes)

look_step-Keeps :
    (bytes : Buffer) (again : ConnHeadReader → Option (HeadLine × ConnHeadReader)) (buf : Buffer)
    (after : ConnHeadReader) (l : Look)
    → IsSane after
    → pending after ≡ bytes
    → Keeps bytes (again after)
    → Keeps bytes (look_step again buf after l)
unfolding Keeps
look_step-Keeps bytes again buf after (line_ends i) sane same rest = (sane, same)
look_step-Keeps bytes again buf after not_http sane same rest = (sane, same)
look_step-Keeps bytes again buf after wants_more sane same rest = rest

head_step-Keeps :
    (bytes : Buffer) (fuel : ℕ) (buf : Buffer) (c : ConnHeadReader) (answer : Option Buffer)
    (after : ConnHeadReader)
    → IsSane after
    → pending after ≡ bytes
    → ((b : Buffer) → Keeps bytes (read_head fuel b after))
    → Keeps bytes (head_step fuel buf c (some (answer, after)))
head_step-Keeps bytes fuel buf c none after sane same rest = unfold Keeps in (sane, same)
head_step-Keeps bytes fuel buf c (some read_now) after sane same rest =
    look_step-Keeps bytes (read_head fuel (buf ++ read_now)) (buf ++ read_now) after
      (look (length buf) read_now) sane same (rest (buf ++ read_now))

read_head-Keeps :
    (bytes : Buffer) (fuel : ℕ) (buf : Buffer) (c : ConnHeadReader)
    → IsSane c
    → c.head_done ≡ false
    → pending c ≡ bytes
    → Keeps bytes (read_head fuel buf c)
unfolding read_head
read_head-Keeps bytes zero buf c sane fresh same = unfold Keeps in tt
read_head-Keeps bytes (suc fuel) buf c sane fresh same =
    let (answer, after, e, still_fresh, sane_after, same_now) =
      read_for_head-pending (buffer_size - length buf) c sane fresh in
    subst (λ r. Keeps bytes (head_step fuel buf c r)) (sym e)
      (head_step-Keeps bytes fuel buf c answer after sane_after (same_now ∙ same)
        (λ b. read_head-Keeps bytes fuel b after sane_after still_fresh (same_now ∙ same)))

-- What the listener leaves of a connection: the reader panics no more, and gives exactly the bytes of the
-- connection.
unfoldable pub LeavesAll : Buffer → Option (Option Bool × ConnHeadReader) → Type 0
LeavesAll bytes none = Unit
LeavesAll bytes (some (none, after)) = ⊥
LeavesAll bytes (some (some is_http, after)) =
    (sizes : List ℕ) → (reads sizes after).0 ++ pending (reads sizes after).1 ≡ bytes

module _ (parse_http_version parse_request_uri : Buffer → Bool) where
  abbrev on_line : Option (HeadLine × ConnHeadReader) → Option (Option Bool × ConnHeadReader)
  on_line none = none
  on_line (some (head_line line, after)) =
      some (some (is_request_line parse_http_version parse_request_uri line), after)
  on_line (some (no_http, after)) = some (some false, after)
  on_line (some (panics, after)) = some (none, after)

  on_line-LeavesAll :
      (bytes : Buffer) (r : Option (HeadLine × ConnHeadReader))
      → Keeps bytes r
      → LeavesAll bytes (on_line r)
  unfolding Keeps LeavesAll
  on_line-LeavesAll bytes none k = tt
  on_line-LeavesAll bytes (some (head_line line, after)) k =
      λ sizes. reads-pending sizes after k.0 ∙ k.1
  on_line-LeavesAll bytes (some (no_http, after)) k = λ sizes. reads-pending sizes after k.0 ∙ k.1
  on_line-LeavesAll bytes (some (panics, after)) k = k

  new_reader-IsSane : (conn : Conn) → IsSane (new_reader conn)
  unfolding IsSane
  new_reader-IsSane conn = λ fresh. omega arith

  -- When maybeHTTPConn has looked at a new connection, it has not panicked, and whatever it has found, a
  -- sequence of reads of any sizes then gives the bytes of the connection from the first on: what the
  -- reads give, followed by what is still to be read, is what the connection sends.
  pub maybe_http_conn-LeavesAll :
      (hosts : List String) (fuel : ℕ) (conn : Conn)
      → LeavesAll
          (stream conn)
          (maybe_http_conn parse_http_version parse_request_uri hosts fuel (new_reader conn))
  unfolding maybe_http_conn
  maybe_http_conn-LeavesAll [] fuel conn =
      unfold LeavesAll pending in
      (λ sizes. reads-pending sizes (new_reader conn) (new_reader-IsSane conn))
  maybe_http_conn-LeavesAll (host ∷ hosts) fuel conn =
      on_line-LeavesAll (stream conn) (read_head fuel [] (new_reader conn)) (
        read_head-Keeps (stream conn) fuel [] (new_reader conn) (new_reader-IsSane conn) refl
          (unfold pending in refl))
