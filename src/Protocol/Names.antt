-- ===== src/Protocol/Names.antt =====
-- The digests and ciphers that requests are about.
use Prim.Native.Nat.{ℕ}

pub data Md : Type 0 where
  sha1 sha224 sha256 sha384 sha512 sha512_256 sha3_256 sha3_512 shake128 shake256 md5 : Md

pub data Cipher : Type 0 where
  chacha20_poly1305 aes_128_gcm aes_192_gcm aes_256_gcm aes_256_cbc : Cipher

-- The bytes of a digest; for the extendable ones those that a request asks for.
abbrev pub digest_size : Md → ℕ
digest_size sha1 = 20
digest_size sha224 = 28
digest_size sha256 = 32
digest_size sha384 = 48
digest_size sha512 = 64
digest_size sha512_256 = 32
digest_size sha3_256 = 32
digest_size sha3_512 = 64
digest_size shake128 = 32
digest_size shake256 = 64
digest_size md5 = 16

-- The bytes of a cipher's key.
abbrev pub key_bytes : Cipher → ℕ
key_bytes chacha20_poly1305 = 32
key_bytes aes_128_gcm = 16
key_bytes aes_192_gcm = 24
key_bytes aes_256_gcm = 32
key_bytes aes_256_cbc = 32
