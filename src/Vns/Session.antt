-- ===== src/Vns/Session.antt =====
-- What sr_vns_comm.c sends when a session begins, and the files that it reads and writes then: the
-- authentication, the routing table file and the messages that ask for a topology.
pub mod Reply
use cmput.Base.{
  ℕ, ◌+◌, ◌||◌, ◌-◌, ◌*◌, Bool, true, false, not, List, [], ◌∷◌, ◌++◌, Option, none, some, Bytes,
  take, drop, slice, replicate, get_elem?, length, le32, bytes16, bytes32, htonl, htons, leb, ltb,
  ◌==◌, if◌then◌else◌,
}
use cmput.Text.{c_string}

-- VNS_AUTH_REPLY, IDSIZE, AUTH_KEY_LEN and SHA1_LEN
abbrev pub vns_auth_reply : ℕ
vns_auth_reply = 256

abbrev pub idsize : ℕ
idsize = 32

abbrev pub auth_key_len : ℕ
auth_key_len = 64

abbrev pub sha1_len : ℕ
sha1_len = 20

-- The words of a digest in network byte order.
unfoldable pub digest_bytes : List ℕ → Bytes
digest_bytes [] = []
digest_bytes (w ∷ ws) = bytes32 (htonl w) ++ digest_bytes ws

-- The message of type VNS_AUTH_REPLY, for a user and a digest of five words.
unfoldable pub auth_reply : Bytes → List ℕ → Bytes
auth_reply user digest =
    bytes32 (htonl (12 + length user + sha1_len))
    ++ (bytes32 (htonl vns_auth_reply)
        ++ (bytes32 (htonl (length user)) ++ (user ++ digest_bytes digest)))

-- What `fgets` and the array of 65 bytes give to SHA-1: the line, its NUL, and what the array held
-- behind it.
unfoldable pub auth_key : Bytes → Bytes → Bytes
auth_key junk line = take auth_key_len (line ++ (0 ∷ junk))

-- `sr_handle_auth_request` up to `send`: the reply, if there is one. SHA-1 is an argument, on the
-- two inputs one behind the other, with no result if it fails; `file` is the line that the file
-- `auth_key` begins with, if it can be read.
unfoldable pub handle_auth_request :
    (Bytes → Option (List ℕ)) → Bytes → Option Bytes → Bytes → Bytes → Option Bytes
handle_auth_request sha1 user none junk req = none
handle_auth_request sha1 user (some line) junk req =
    elim (sha1 (slice req 8 (htonl (le32 req) - 8) ++ auth_key junk line)) [
      | none ↦ none
      | some digest ↦ some (auth_reply user digest)
    ]

-- `sr_handle_auth_status`: `none` is a message that has no byte for the status.
unfoldable pub handle_auth_status : Bytes → Option Bool
handle_auth_status status = elim (get_elem? status 8) [
  | none ↦ none
  | some auth_ok ↦ some (not (auth_ok == 0))
]

-- VNSOPEN and VNS_OPEN_TEMPLATE
abbrev pub vnsopen : ℕ
vnsopen = 1

abbrev pub vns_open_template : ℕ
vns_open_template = 64

-- `strncpy` into a field of `n` bytes.
unfoldable pub text_field : ℕ → Bytes → Bytes
text_field n text = take n (text ++ replicate n 0)

-- The message with which `sr_connect_to_server` asks for a topology, by its number; the password
-- stays empty.
unfoldable pub open_message : ℕ → Bytes → Bytes → Bytes
open_message topo_id host user =
    bytes32 (htonl 108)
    ++ (bytes32 (htonl vnsopen)
        ++ (bytes16 (htons topo_id)
            ++ (0 ∷ 0 ∷ [])
            ++ (text_field idsize host ++ (text_field idsize user ++ replicate idsize 0))))

-- The one that asks for it by the name of a template.
unfoldable pub open_template_message : Bytes → Bytes → Bytes
open_template_message template host =
    bytes32 (htonl 70)
    ++ (bytes32 (htonl vns_open_template) ++ (text_field 30 template ++ text_field idsize host))

unfoldable pub open_session : Bytes → ℕ → Bytes → Bytes → Bytes
open_session template topo_id host user =
    if ltb 0 (length template)
    then open_template_message template host
    else open_message topo_id host user

-- What `sr_handle_rtable` does: a file with its name and its contents, or none if it cannot be
-- opened; or an access behind the array of the name or behind the message.
pub data RtableFile : Type 0 where
  written : Bytes → Bytes → RtableFile
  unopened overrun : RtableFile

-- "rtable."
abbrev pub rtable_prefix : Bytes
rtable_prefix = b'r' ∷ b't' ∷ b'a' ∷ b'b' ∷ b'l' ∷ b'e' ∷ b'.' ∷ []

unfoldable pub handle_rtable : Bool → Bytes → RtableFile
handle_rtable opens rtable =
    let host = c_string (drop 8 rtable) in
    let size = htonl (le32 rtable) in
    if ltb idsize (length host)
    then overrun
    else if not opens
    then unopened
    else if ltb size (8 + idsize)
    then overrun
    else written (rtable_prefix ++ host) (slice rtable (8 + idsize) (size - (8 + idsize)))
