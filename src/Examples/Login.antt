-- ===== src/Examples/Login.antt =====
-- The authentication on concrete inputs.
use cmput.Base.{ℕ, ◌≡◌, refl, List, [], ◌∷◌, some, none, Bytes, arith}
use cmput.Vns.Session.{handle_auth_request, handle_auth_status}
use cmput.Vns.Session.Reply.{IsReply, handle_auth_request_replies}

-- A request with a salt of two bytes, and a digest that does not depend on it.
abbrev pub req : Bytes
req = 0 ∷ 0 ∷ 0 ∷ 10 ∷ 0 ∷ 0 ∷ 0 ∷ 128 ∷ 7 ∷ 9 ∷ []

abbrev pub user : Bytes
user = b'a' ∷ b'b' ∷ []

abbrev pub digest : List ℕ
digest = 1 ∷ 2 ∷ 3 ∷ 4 ∷ 5 ∷ []

handle_auth_request_replies_example :
    (reply : Bytes) × (handle_auth_request (λ b. some digest) user (some (b'k' ∷ [])) [] req
      ≡ some reply)
    × IsReply user digest reply
handle_auth_request_replies_example =
    handle_auth_request_replies (λ b. some digest) user (b'k' ∷ []) [] req digest refl refl
      (omega arith, (omega arith, (omega arith, (omega arith, (omega arith, tt))))) (omega arith)

-- A status without its byte.
no_status : handle_auth_status (0 ∷ 0 ∷ 0 ∷ 8 ∷ 0 ∷ 0 ∷ 2 ∷ 0 ∷ []) ≡ none
unfolding handle_auth_status
no_status = refl
