-- ===== src/AcceptKey.antt =====
-- The answer to a client's websocket key, src/util/ssl.h and src/util/ssl.cpp. OpenSSL is a
-- parameter: `sha1`, and what a base64 BIO without newlines leaves in memory after a write of some
-- bytes, with `none` for a write that fails.
use my_web_socket.Prelude.{ℕ, Option, none, some, List, ◌++◌, codes, take, ◌==◌, if◌then◌else◌}

pub record OpenSsl : Type 0 where
  pub sha1 : List ℕ → List ℕ
  pub bio_base64 : List ℕ → Option (List ℕ)

abbrev pub ws_guid : List ℕ
ws_guid = codes "258EAFA5-E914-47DA-95CA-C5AB0DC85B11"

abbrev pub sha_digest_length : ℕ
sha_digest_length = 20

module _ (ssl : OpenSsl) where
  -- `none` is the exception that a failed write throws. The null pointer is `none`, and a negative
  -- length is taken for 0.
  unfoldable pub base64_encode : Option (List ℕ) → ℕ → Option (List ℕ)
  base64_encode none length = some (codes "")
  base64_encode (some input) length =
      if length == 0 then some (codes "") else ssl.bio_base64 (take length input)

  unfoldable pub calculate_accept_key : List ℕ → Option (List ℕ)
  unfolding base64_encode
  calculate_accept_key client_key =
      let handshake_string = client_key ++ ws_guid in
      base64_encode (some (ssl.sha1 handshake_string)) sha_digest_length
