-- ===== src/Listener/Head.antt =====
-- The bytes that the listener reads ahead are read again: no byte is lost.
use mathlib.Core.List.{append_assoc}
use go_openbmclapi.Prelude.{
  ℕ, ◌+◌, ◌≤◌, ◌≡◌, ◌∙◌, ap, sym, refl, false, Option, some, List, [], ◌∷◌, ◌++◌, arith, ltb, leb,
  ◌==◌, if-holds, length, take, drop, take-append-drop, length-append, length-take, length-drop,
  suc, zero,
}
use go_openbmclapi.Listener.{
  Buffer, Conn, stream, conn_read, ConnHeadReader, read_bytes, read_for_head, read,
}

-- What a reader of the connection is still to get.
unfoldable pub pending : ConnHeadReader → Buffer
pending c = drop c.headi c.head ++ stream c.conn

-- No more of the head has been read again than there is, until the content is read.
unfoldable pub IsSane : ConnHeadReader → Type 0
IsSane c = c.head_done ≡ false → c.headi ≤ length c.head

pub conn_read-stream :
    (size : ℕ) (conn : Conn)
    → read_bytes (conn_read size conn).0 ++ stream (conn_read size conn).1 ≡ stream conn
unfolding conn_read stream
conn_read-stream size [] = ground arith
conn_read-stream size (chunk ∷ rest) =
    if-holds (λ (r : Option Buffer × Conn). read_bytes r.0 ++ stream r.1 ≡ chunk ++ stream rest)
      (size == 0) (λ no_room. refl)
      (λ room.
        if-holds (λ (r : Option Buffer × Conn). read_bytes r.0 ++ stream r.1 ≡ chunk ++ stream rest)
          (leb (length chunk) size) (λ fits. refl)
          (λ over.
            sym (append_assoc (take size chunk) (drop size chunk) (stream rest))
            ∙ ap (λ l. l ++ stream rest) (take-append-drop size chunk)))

drop-append : (n : ℕ) (xs ys : Buffer) → n ≤ length xs → drop n (xs ++ ys) ≡ drop n xs ++ ys
drop-append zero xs ys le = refl
drop-append (suc n) [] ys le = ground (arith, le)
drop-append (suc n) (x ∷ xs) ys le = drop-append n xs ys (omega (arith, le))

drop-nil : (n : ℕ) → drop {A = ℕ} n [] ≡ []
drop-nil zero = refl
drop-nil (suc n) = refl

suc_add : (n m : ℕ) → suc (n + m) ≡ suc n + m
suc_add n m = omega arith

drop-drop : (n m : ℕ) (xs : Buffer) → drop m (drop n xs) ≡ drop (n + m) xs
drop-drop zero m xs = ground arith
drop-drop (suc n) m [] = drop-nil m ∙ sym (drop-nil (suc n + m))
drop-drop (suc n) m (x ∷ xs) = drop-drop n m xs ∙ ap (λ (k : ℕ). drop k (x ∷ xs)) (suc_add n m)

drop_all : (n : ℕ) (xs : Buffer) → length xs ≤ n → drop n xs ≡ []
drop_all zero [] le = refl
drop_all zero (x ∷ xs) le = ground (arith, le)
drop_all (suc n) [] le = refl
drop_all (suc n) (x ∷ xs) le = drop_all n xs (omega (arith, le))

take-drop_taken : (m : ℕ) (xs : Buffer) → take m xs ++ drop (length (take m xs)) xs ≡ xs
take-drop_taken zero xs = refl
take-drop_taken (suc m) [] = refl
take-drop_taken (suc m) (x ∷ xs) = ap (λ (l : Buffer). x ∷ l) (take-drop_taken m xs)

-- What ReadForHead reads is still to be read.
pub read_for_head-pending :
    (size : ℕ) (c : ConnHeadReader)
    → IsSane c
    → c.head_done ≡ false
    → (answer : Option Buffer) × (after : ConnHeadReader) × (read_for_head size c
        ≡ some (answer, after))
      × (after.head_done ≡ false)
      × IsSane after
      × (pending after ≡ pending c)
unfolding read_for_head pending IsSane
read_for_head-pending size c sane fresh = (
  (conn_read size c.conn).0,
  record c {
    conn = (conn_read size c.conn).1;
    head = c.head ++ read_bytes (conn_read size c.conn).0;
  },
  ground (arith, fresh),
  fresh,
  (λ _. omega (arith, sane fresh, length-append c.head (read_bytes (conn_read size c.conn).0))),
  ap (λ (l : Buffer). l ++ stream (conn_read size c.conn).1)
        (drop-append c.headi c.head (read_bytes (conn_read size c.conn).0) (sane fresh))
      ∙ (append_assoc (drop c.headi c.head) (read_bytes (conn_read size c.conn).0)
            (stream (conn_read size c.conn).1)
          ∙ ap (λ (l : Buffer). drop c.headi c.head ++ l) (conn_read-stream size c.conn)),
)

-- A read gives the beginning of what is to be read.
unfoldable pub Reads : ConnHeadReader → Option Buffer × ConnHeadReader → Type 0
unfolding IsSane pending
Reads c (answer, after) = IsSane after × (read_bytes answer ++ pending after ≡ pending c)

again-pending :
    (size h : ℕ) (head rest : Buffer)
    → take size (drop h head) ++ (drop (h + length (take size (drop h head))) head ++ rest)
      ≡ drop h head ++ rest
again-pending size h head rest =
    sym (
      append_assoc (take size (drop h head)) (drop (h + length (take size (drop h head))) head)
        rest)
    ∙ ap (λ (l : Buffer). l ++ rest)
        (ap (λ (l : Buffer). take size (drop h head) ++ l)
            (sym (drop-drop h (length (take size (drop h head))) head))
          ∙ take-drop_taken size (drop h head))

-- The head has been read again.
content-pending :
    (size h : ℕ) (head : Buffer) (conn : Conn)
    → ltb h (length head) ≡ false
    → read_bytes (conn_read size conn).0 ++ stream (conn_read size conn).1
      ≡ drop h head ++ stream conn
content-pending size h head conn all =
    conn_read-stream size conn
    ∙ ap (λ (l : Buffer). l ++ stream conn) (sym (drop_all h head (ground (arith, all))))

dropped :
    (h : ℕ) (head bytes rest l : Buffer)
    → ltb h (length head) ≡ false
    → bytes ++ rest ≡ l
    → bytes ++ (drop h head ++ rest) ≡ l
dropped h head bytes rest l all e =
    ap (λ (d : Buffer). bytes ++ (d ++ rest)) (drop_all h head (ground (arith, all))) ∙ e

read-Reads : (size : ℕ) (c : ConnHeadReader) → IsSane c → Reads c (read size c)
unfolding read
read-Reads size c sane =
    if-holds (Reads c) (ltb c.headi (length c.head))
      (λ more.
        unfold Reads in
        (
          (λ _.
              ground
                (arith, more, length-take size (drop c.headi c.head), length-drop c.headi c.head)),
          again-pending size c.headi c.head (stream c.conn),
        ))
      (λ all.
        if-holds (λ (a : ConnHeadReader). Reads c ((conn_read size c.conn).0, a)) c.head_done
          (λ done.
            unfold Reads in
            (
              (λ no. ground (arith, done, no)),
              dropped c.headi c.head _ _ _ all (content-pending size c.headi c.head c.conn all),
            ))
          (λ fresh.
            unfold Reads in
            (
              (λ no. ground (arith, no)),
              dropped c.headi [] _ _ _ (ground arith)
                  (content-pending size c.headi c.head c.conn all),
            )))

-- The bytes that a sequence of reads gives, and the reader after it.
unfoldable pub reads : List ℕ → ConnHeadReader → Buffer × ConnHeadReader
unfolding read
reads [] c = ([], c)
reads (size ∷ sizes) c =
    let (answer, after) = read size c in
    let (later, end) = reads sizes after in (read_bytes answer ++ later, end)

pub reads-pending :
    (sizes : List ℕ) (c : ConnHeadReader)
    → IsSane c
    → (reads sizes c).0 ++ pending (reads sizes c).1 ≡ pending c
unfolding reads Reads
reads-pending [] c sane = refl
reads-pending (size ∷ sizes) c sane =
    let (sane_after, e) = read-Reads size c sane in
    append_assoc (read_bytes (read size c).0) (reads sizes (read size c).1).0
      (pending (reads sizes (read size c).1).1)
    ∙ (ap (λ (l : Buffer). read_bytes (read size c).0 ++ l)
          (reads-pending sizes (read size c).1 sane_after)
        ∙ e)
