-- ===== src/Sealed/Exchange.antt =====
-- The exchange of keys, and what either side reads of what the other has sealed.
use server_simple.Base.{
  ℕ, ◌+◌, ◌-◌, ◌*◌, ◌/◌, ◌%◌, ◌^◌, ◌≤◌, ◌<◌, ◌≡◌, refl, sym, ap, subst, ◌∙◌, true, false, ◌||◌,
  some, List, [], ◌∷◌, ◌++◌, leb, ◌==◌, le→leb, length, length-append, length-replicate, take, drop,
  take-append, drop-append, append_assoc, replicate, c_string, c_string-append, arith,
}
use server_simple.Net.Read.{uint3korr}
use server_simple.Aes.{padding_data_pkcs7, decrypt_data}
use server_simple.Aes.Padding.{decrypt_data_lem}
use server_simple.Session.{Command, ccom_save_token, Thd, Env, send_key_to_client}
use server_simple.Session.Reply.{IsClear, write_and_flush-aes_key}
use server_simple.Sealed.{
  Crypto, base_key, keyed, seal, exempt, unseal, sealed_reply, with_header, framed, frame,
  sealed_token_frame, open_reply, int2store,
}

-- The bytes behind a text that fill its last block.
abbrev filling : List ℕ → List ℕ
filling text = let r = 16 - length text % 16 in replicate r r

record IsSealed (c : Crypto) (key text bytes : List ℕ) : Type 0 where
  made : seal c true key text ≡ some bytes
  back : decrypt_data c.decrypt key bytes ≡ (length text, text ++ filling text)
  opened : c.decrypt (take 16 key) (drop 16 key) bytes ≡ text ++ filling text
  size : length bytes ≡ length text + (16 - length text % 16)

seal-IsSealed :
    (c : Crypto) (key text : List ℕ)
    → length text + 16 < 2 ^ 32
    → (bytes : List ℕ) × IsSealed c key text bytes
unfolding padding_data_pkcs7 seal
seal-IsSealed c key text small =
    let padded = text ++ filling text in
    let (p, made, back) =
      decrypt_data_lem c.encrypt c.decrypt (λ k iv m h. (c.undoes k iv m h, c.keeps k iv m h)) key
        text small in
    let same : padded ≡ p = cc in
    let size : length padded ≡ length text + (16 - length text % 16) =
      length-append text (filling text)
      ∙ ap (λ n. length text + n) (length-replicate {A = ℕ} (16 - length text % 16) _) in
    let blocks : length padded % 16 ≡ 0 = omega (arith, size) in
    (
      c.encrypt (take 16 key) (drop 16 key) padded,
      record {
        made = refl;
        back =
            subst
              (λ m.
                decrypt_data c.decrypt key (c.encrypt (take 16 key) (drop 16 key) m)
                ≡ (length text, m))
              (sym same) back;
        opened = c.undoes (take 16 key) (drop 16 key) padded blocks;
        size = c.keeps (take 16 key) (drop 16 key) padded blocks ∙ size;
      },
    )

-- The server gets back what was sealed, and its length.
unseal-seal :
    (c : Crypto) (key text bytes : List ℕ) (command : Command) (after : List ℕ)
    → IsSealed c key text bytes
    → exempt command ≡ false
    → 0 < length text
    → unseal c key command (bytes ++ after) (length bytes)
      ≡ (command, (text ++ filling text) ++ after, length text)
unfolding unseal
unseal-seal c key text bytes command after s open_to some_text =
    let some_length : ((length text == 0) || (length bytes == length text)) ≡ false =
      ground (arith, s.size) in
    rw (take-append bytes after, drop-append bytes after, s.back) (simp (open_to, some_length))

-- After the exchange both sides have the key of 32 zero bytes.
send_key_to_client-Zero :
    (c : Crypto) (client server : List ℕ) (env : Env) (thd : Thd) (after : List ℕ)
    → IsClear thd.net
    → let e = keyed c server env in
      ((send_key_to_client e thd (c.shared client base_key ++ after)).net.aes_key ≡ replicate 32 0)
      × (c.shared client e.public_key ≡ replicate 32 0)
unfolding send_key_to_client
send_key_to_client-Zero c client server env thd after clear = (
  write_and_flush-aes_key
        (record (thd.net) {
          aes_key = c.shared server (take 32 (c.shared client base_key ++ after));
        })
        (c.shared server base_key) (record { plain = clear.plain; empty = clear.empty })
      ∙ ap (λ p. c.shared server (take 32 (p ++ after))) (c.low_order client)
      ∙ c.low_order server,
  ap (c.shared client) (c.low_order server) ∙ c.low_order client,
)

-- A text with its 0, in front of what fills its block and what is behind that.
text_behind :
    (text fill after : List ℕ)
    → c_string text ≡ text
    → c_string (((text ++ 0 ∷ []) ++ fill) ++ after) ≡ text
text_behind text fill after whole =
    ap (λ bs. c_string (bs ++ after)) (append_assoc text (0 ∷ []) fill)
    ∙ ap c_string (append_assoc text (0 ∷ fill) after)
    ∙ c_string-append text (fill ++ after)
    ∙ whole

sealed_reply-seal :
    (c : Crypto) (key reply bytes : List ℕ)
    → IsSealed c key reply bytes
    → length bytes + 2 ≤ 1024
    → sealed_reply c true key reply ≡ some (int2store (length bytes) ++ bytes)
unfolding sealed_reply
sealed_reply-seal c key reply bytes s small =
    let fits : leb (length bytes + 2) 1024 ≡ true = le→leb _ _ small in
    ap with_header s.made ∙ simp fits

opened_reply :
    (c : Crypto) (key reply bytes after : List ℕ)
    → IsSealed c key reply bytes
    → length bytes < 256
    → open_reply c key ((int2store (length bytes) ++ bytes) ++ after)
      ≡ c_string ((reply ++ filling reply) ++ after)
unfolding open_reply
opened_reply c key reply bytes after s small =
    let announced : length bytes % 256 + length bytes / 256 % 256 * 256 % 256 ≡ length bytes =
      omega arith in
    rw (announced, take-append bytes after, drop-append bytes after, s.opened) refl

-- What the client reads of a reply that was sealed, if its length is one byte.
open_reply-sealed_reply :
    (c : Crypto) (key text after : List ℕ)
    → c_string text ≡ text
    → length text + 17 < 256
    → (sent : List ℕ) × (sealed_reply c true key (text ++ 0 ∷ []) ≡ some sent)
      × (open_reply c key (sent ++ after) ≡ text)
open_reply-sealed_reply c key text after whole small =
    let reply = text ++ 0 ∷ [] in
    let long : length reply ≡ length text + 1 = length-append text (0 ∷ []) ∙ omega arith in
    let (bytes, s) = seal-IsSealed c key reply (omega (arith, long)) in
    (
      int2store (length bytes) ++ bytes,
      sealed_reply-seal c key reply bytes s (omega (arith, s.size, long)),
      opened_reply c key reply bytes after s (omega (arith, s.size, long))
          ∙ text_behind text (filling reply) after whole,
    )

-- With the key `key` of the client and `held` of the server: the server takes the sealed packet of
-- CCOM_SAVE_TOKEN as this command with the text, and its header announces exactly its bytes.
abbrev pub TakesToken : Crypto → List ℕ → List ℕ → List ℕ → List ℕ → Type 0
TakesToken c key held json behind =
    (bytes : List ℕ) × (buffer : List ℕ) × (sealed_token_frame c true key json
      ≡ some (frame 4 bytes))
    × (uint3korr (frame 4 bytes) 0 ≡ length bytes + 1)
    × (unseal c held ccom_save_token (bytes ++ behind) (length bytes)
        ≡ (ccom_save_token, buffer, length json + 1))
    × (c_string buffer ≡ json)

-- The client reads the text of a sealed reply.
abbrev pub ReadsReply : Crypto → List ℕ → List ℕ → List ℕ → List ℕ → Type 0
ReadsReply c key held text behind =
    (sent : List ℕ) × (sealed_reply c true held (text ++ 0 ∷ []) ≡ some sent)
    × (open_reply c key (sent ++ behind) ≡ text)

same_key-TakesToken :
    (c : Crypto) (key json behind : List ℕ)
    → c_string json ≡ json
    → length json < 2000
    → TakesToken c key key json behind
unfolding frame
same_key-TakesToken c key json behind j small =
    let text = json ++ 0 ∷ [] in
    let long : length text ≡ length json + 1 = length-append json (0 ∷ []) ∙ omega arith in
    let (bytes, s) = seal-IsSealed c key text (omega (arith, long)) in
    (
      bytes,
      (text ++ filling text) ++ behind,
      ap framed s.made,
      omega (arith, s.size, long),
      unseal-seal c key text bytes ccom_save_token behind s refl (omega (arith, long))
          ∙ ap (λ (n : ℕ). (ccom_save_token, (text ++ filling text) ++ behind, n)) long,
      text_behind json (filling text) behind j,
    )

-- With a cipher and a curve as they are documented, whatever private keys the two programs have, and
-- whatever stands in their buffers behind the packets: after the exchange of keys the server takes the
-- client's sealed token as CCOM_SAVE_TOKEN with the text, and the client reads the text of a sealed
-- reply, if that is shorter than 239 bytes. The key that both use is 32 zero bytes.
pub exchange_lem :
    (c : Crypto) (client server : List ℕ) (env : Env) (thd : Thd) (json text behind : List ℕ)
    → IsClear thd.net
    → c_string json ≡ json
    → c_string text ≡ text
    → length json < 2000
    → length text + 17 < 256
    → let e = keyed c server env in
      let key = c.shared client e.public_key in
      let held = (send_key_to_client e thd (c.shared client base_key ++ behind)).net.aes_key in
      TakesToken c key held json behind × ReadsReply c key held text behind × (key ≡ replicate 32 0)
exchange_lem c client server env thd json text behind clear j t small short =
    let (held_zero, key_zero) = send_key_to_client-Zero c client server env thd behind clear in
    let key = c.shared client (c.shared server base_key) in
    let same = key_zero ∙ sym held_zero in
    (
      subst (λ held. TakesToken c key held json behind) same
          (same_key-TakesToken c key json behind j small),
      subst (λ held. ReadsReply c key held text behind) same
          (open_reply-sealed_reply c key text behind t short),
      key_zero,
    )
