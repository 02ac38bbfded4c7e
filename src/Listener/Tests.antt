-- ===== src/Listener/Tests.antt =====
-- http_listener.go on concrete inputs.
use go_openbmclapi.Prelude.{ℕ, suc, ◌≡◌, refl, Bool, true, none, some, [], ◌∷◌, ◌++◌, length, zero}
use go_openbmclapi.Listener.{Buffer, Conn, stream, new_reader, maybe_http_conn, look, wants_more}
use go_openbmclapi.Listener.Kept.{LeavesAll, maybe_http_conn-LeavesAll}
use go_openbmclapi.Listener.Line.{answer_of}
use go_openbmclapi.Listener.Stuck.{maybe_http_conn-stuck}

-- "GET", " /", " H" and a line's end.
abbrev request : Conn
request = (71 ∷ 69 ∷ 84 ∷ []) ∷ (32 ∷ 47 ∷ []) ∷ (32 ∷ 72 ∷ 13 ∷ 10 ∷ []) ∷ []

abbrev every : Buffer → Bool
every b = true

is_a_request :
    answer_of every every (maybe_http_conn every every ("a.example" ∷ []) 4 (new_reader request))
    ≡ some (some true)
unfolding maybe_http_conn
is_a_request = refl

maybe_http_conn-LeavesAll_example :
    LeavesAll
      (stream request)
      (maybe_http_conn every every ("a.example" ∷ []) 4 (new_reader request))
maybe_http_conn-LeavesAll_example =
    maybe_http_conn-LeavesAll every every ("a.example" ∷ []) 4 request

abbrev double : ℕ → Buffer → Buffer
double zero line = line
double (suc n) line = double n (line ++ line)

abbrev long_line : Buffer
long_line = double 12 (65 ∷ [])

long_line-length : length long_line ≡ 4096
long_line-length = refl

long_line-look : look 0 long_line ≡ wants_more
unfolding look
long_line-look = refl

maybe_http_conn-stuck_example :
    maybe_http_conn every every ("a.example" ∷ []) 1000 (new_reader (long_line ∷ [])) ≡ none
maybe_http_conn-stuck_example =
    maybe_http_conn-stuck every every "a.example" [] long_line [] 1000 long_line-length
      long_line-look
