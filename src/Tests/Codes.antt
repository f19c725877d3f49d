-- ===== src/Tests/Codes.antt =====
-- The theorems on encodings at concrete inputs.
use threshold_password_authe.Base.{ℕ, ◌≡◌, refl, arith}
use threshold_password_authe.Crypto.{CtBlob}
use threshold_password_authe.Crypto.Blob.{HasWidth}
use threshold_password_authe.Messages.{account_plaintext_len, identification_plaintext_len}
use threshold_password_authe.Messages.Encoding.{encode_account-injective}
use threshold_password_authe.System.Plaintext.{
  parse_identification_plaintext, make_identification_plaintext,
  parse-make_identification_plaintext,
}
use threshold_password_authe.Tests.Toy.{toy, toy-IsLawful, text32, alice, zeros, blob}

blob-HasWidth : HasWidth account_plaintext_len blob
blob-HasWidth = record { nonce = refl; ct = refl; tag = refl }

abbrev long_blob : CtBlob
long_blob = record { nonce = zeros 24; ct = zeros 104; tag = zeros 16 }

long_blob-HasWidth : HasWidth identification_plaintext_len long_blob
long_blob-HasWidth = record { nonce = refl; ct = refl; tag = refl }

encode_account-injective_example :
    (alice ≡ alice) × (text32 ≡ text32) × (blob ≡ blob) × (◌≡◌ {A = ℕ} 3 3)
encode_account-injective_example =
    encode_account-injective alice alice text32 text32 blob blob 3 3 (omega arith) (omega arith)
      refl refl blob-HasWidth blob-HasWidth (omega arith) (omega arith) refl

parse-make_identification_plaintext_example :
    parse_identification_plaintext toy (make_identification_plaintext toy 5 text32 text32 7)
    ≡ (5, text32, text32, 7)
parse-make_identification_plaintext_example =
    parse-make_identification_plaintext toy toy-IsLawful 5 text32 text32 7 refl refl (omega arith)
