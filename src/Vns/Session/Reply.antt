-- ===== src/Vns/Session/Reply.antt =====
-- The reply to a request for authentication, as the server reads it.
use cmput.Base.{
  ℕ, zero, suc, ◌+◌, ◌*◌, ◌-◌, ◌^◌, ◌<◌, ◌≡◌, refl, ◌∙◌, ap, List, [], ◌∷◌, ◌++◌, All, Option, some,
  Bytes, drop, slice, length, length-append, le32, bytes32, htonl, htonl-htonl, le32-bytes32,
  take_all, arith,
}
use cmput.Vns.Delivery.{htonl_bound, drop_all}
use cmput.Vns.Session.{vns_auth_reply, digest_bytes, auth_reply, auth_key, handle_auth_request}

length-digest_bytes : (ws : List ℕ) → length (digest_bytes ws) ≡ 4 * length ws
unfolding digest_bytes
length-digest_bytes [] = refl
length-digest_bytes (w ∷ ws) = omega (arith, length-digest_bytes ws)

pub field_word : (n : ℕ) → n < 2 ^ 32 → htonl (le32 (bytes32 (htonl n))) ≡ n
field_word n h = ap htonl (le32-bytes32 (htonl n) (htonl_bound n)) ∙ htonl-htonl n h

-- The `n` words in network byte order that some bytes begin with.
abbrev pub words_at : ℕ → Bytes → List ℕ
words_at zero b = []
words_at (suc n) b = htonl (le32 b) ∷ words_at n (drop 4 b)

words_at-digest_bytes :
    (ws : List ℕ) → All (λ w. w < 2 ^ 32) ws → words_at (length ws) (digest_bytes ws) ≡ ws
unfolding digest_bytes
words_at-digest_bytes [] v = refl
words_at-digest_bytes (w ∷ ws) v =
    ap (λ k. k ∷ words_at (length ws) (digest_bytes ws)) (field_word w v.0)
    ∙ ap (λ ks. w ∷ ks) (words_at-digest_bytes ws v.1)

-- What the server reads in a reply: the length of the whole message, the type, and the user's name
-- and the digest, with the length of the name between them.
pub record IsReply (user : Bytes) (digest : List ℕ) (reply : Bytes) : Type 0 where
  pub size : htonl (le32 reply) ≡ length reply
  pub type : htonl (le32 (drop 4 reply)) ≡ vns_auth_reply
  pub name_size : htonl (le32 (drop 8 reply)) ≡ length user
  pub name : slice reply 12 (length user) ≡ user
  pub digest_words : words_at (length digest) (drop (12 + length user) reply) ≡ digest

twelve : (n : ℕ) → 12 + n ≡ suc (suc (suc (suc (suc (suc (suc (suc (suc (suc (suc (suc n)))))))))))
twelve n = omega arith

auth_reply-IsReply :
    (user : Bytes) (digest : List ℕ)
    → length digest ≡ 5
    → All (λ w. w < 2 ^ 32) digest
    → length user < 10000
    → IsReply user digest (auth_reply user digest)
unfolding auth_reply slice
auth_reply-IsReply user digest d u h = record {
  size =
      field_word (12 + length user + 20) (omega (arith, h))
      ∙ omega (arith, length-append user (digest_bytes digest), length-digest_bytes digest, d);
  type = field_word vns_auth_reply (omega arith);
  name_size = field_word (length user) (omega (arith, h));
  name = take_all user (length user) (digest_bytes digest) refl;
  digest_words =
      ap (words_at (length digest)) (
        ap (λ k. drop k (auth_reply user digest)) (twelve (length user))
        ∙ drop_all user (length user) (digest_bytes digest) refl)
      ∙ words_at-digest_bytes digest u;
}

-- `sr_handle_auth_request` answers whenever the key can be read and SHA-1 has a result of five
-- words of 32 bits for the salt and the key, one behind the other; the server can take the reply apart: its
-- length, its type, the name of the user, if that is shorter than 10000 bytes, and the words of the digest in
-- network byte order.
pub handle_auth_request_replies :
    (sha1 : Bytes → Option (List ℕ)) (user line junk req : Bytes) (digest : List ℕ)
    → sha1 (slice req 8 (htonl (le32 req) - 8) ++ auth_key junk line) ≡ some digest
    → length digest ≡ 5
    → All (λ w. w < 2 ^ 32) digest
    → length user < 10000
    → (reply : Bytes) × (handle_auth_request sha1 user (some line) junk req ≡ some reply)
      × IsReply user digest reply
unfolding handle_auth_request
handle_auth_request_replies sha1 user line junk req digest e d u h =
    (auth_reply user digest, rw (e, handle_auth_request) refl, auth_reply-IsReply user digest d u h)
