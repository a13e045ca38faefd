-- ===== src/Tests/Seals.antt =====
-- An exchange with a small cipher.
use server_simple.Base.{
  ℕ, ◌+◌, ◌-◌, ◌≡◌, ◌∙◌, ◌++◌, refl, ap, suc, some, List, [], ◌∷◌, length, replicate, map, codes,
  arith,
}
use server_simple.Aes.{decrypt_data}
use server_simple.Session.{ccom_save_token, ccom_quit, Thd, send_key_to_client}
use server_simple.Sealed.{Crypto, base_key, keyed, unseal}
use server_simple.Sealed.Exchange.{TakesToken, ReadsReply, exchange_lem}
use server_simple.Tests.Data.{a_net, a_thd, env}

-- Each byte goes up by one.
pred-suc : (m : List ℕ) → map (λ b. b - 1) (map (λ b. b + 1) m) ≡ m
pred-suc [] = refl
pred-suc (b ∷ m) = ap (λ r. (b + 1 - 1) ∷ r) (pred-suc m) ∙ ap (λ c. c ∷ m) (omega arith)

length-up : (m : List ℕ) → length (map (λ b. b + 1) m) ≡ length m
length-up [] = refl
length-up (b ∷ m) = ap suc (length-up m)

abbrev small_crypto : Crypto
small_crypto = record {
  shared = λ secret point. point;
  encrypt = λ key iv m. map (λ b. b + 1) m;
  decrypt = λ key iv m. map (λ b. b - 1) m;
  low_order = λ secret. refl;
  undoes = λ key iv m h. pred-suc m;
  keeps = λ key iv m h. length-up m;
}

abbrev a_client : Thd
a_client = a_thd (a_net [] (some 40 ∷ []))

exchange_example :
    let e = keyed small_crypto (2 ∷ []) env in
    let held = (send_key_to_client e a_client (base_key ++ 0 ∷ [])).net.aes_key in
    TakesToken small_crypto base_key held (codes "{}") (0 ∷ [])
    × ReadsReply small_crypto base_key held (codes "[1]") (0 ∷ [])
    × (base_key ≡ replicate 32 0)
exchange_example =
    exchange_lem small_crypto (1 ∷ []) (2 ∷ []) env a_client (codes "{}") (codes "[1]") (0 ∷ [])
      (record { plain = refl; empty = refl }) refl refl (omega arith) (omega arith)

-- A packet that is not of whole blocks ends the connection.
not_sealed :
    unseal small_crypto base_key ccom_save_token (codes "{}") 2 ≡ (ccom_quit, codes "{}", 2)
unfolding unseal decrypt_data
not_sealed = refl
