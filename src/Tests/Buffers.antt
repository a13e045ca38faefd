-- ===== src/Tests/Buffers.antt =====
-- The read buffer of the descriptor layer, and the padding.
use server_simple.Base.{
  ℕ, ◌+◌, ◌%◌, ◌<◌, ◌≡◌, refl, true, some, codes, List, [], ◌∷◌, ◌++◌, length, replicate,
  length-replicate, arith,
}
use server_simple.Socket.{segment}
use server_simple.Vio.{Vio, vio_read_buffer_size, vio_read, vio_read_buff}
use server_simple.Vio.Buffered.{IsBuffered, pending}
use server_simple.Vio.Peer.{my_inet_ntoa, vio_peer_addr}
use server_simple.Notify.{to_string, decimal}
use server_simple.Vio.Reader.{read_all, read_all-read_all}
use server_simple.Socket.Laws.{stream}
use server_simple.Aes.{padding_data_pkcs7, un_padding_data_pkcs7}
use server_simple.Aes.Padding.{un_padding_data_pkcs7-padding_data_pkcs7}
use server_simple.Aes.Keys.{Chance, random_bytes, key_generator}
use server_simple.Aes.Keys.Entropy.{key_generator_lem}
use server_simple.Tests.Data.{a_vio}

abbrev buffered : Vio
buffered = record (a_vio (segment (1 ∷ 2 ∷ 3 ∷ []) ∷ []) []) {
  read_buffer = some (replicate vio_read_buffer_size 0);
}

buffered-IsBuffered : IsBuffered buffered
buffered-IsBuffered = record {
  whole = length-replicate {A = ℕ} vio_read_buffer_size 0;
  within = omega arith;
}

-- One byte and then two through the buffer, and two and then one without it.
read_all-read_all_example :
    let (bytes, v) = read_all vio_read_buff buffered (1 ∷ 2 ∷ []) in
    let (bytes', v') = read_all vio_read (a_vio (segment (1 ∷ 2 ∷ 3 ∷ []) ∷ []) []) (2 ∷ 1 ∷ []) in
    bytes ++ (pending v ++ stream v.kernel.incoming) ≡ bytes' ++ stream v'.kernel.incoming
read_all-read_all_example =
    read_all-read_all buffered (a_vio (segment (1 ∷ 2 ∷ 3 ∷ []) ∷ []) []) (1 ∷ 2 ∷ []) (2 ∷ 1 ∷ [])
      buffered-IsBuffered refl refl

-- A peer at 192.168.0.7.
a_peer :
    (vio_peer_addr
      (some (record { ip = (192, 168, 0, 7); port = 4000 }))
      buffered
      (record { ip = (0, 0, 0, 0); port = 0 })).0
    ≡ some (codes "192.168.0.7", 4000)
unfolding vio_peer_addr my_inet_ntoa to_string decimal
a_peer = refl

abbrev text : List ℕ
text = 104 ∷ 105 ∷ 0 ∷ []

un_padding_data_pkcs7-padding_data_pkcs7_example :
    (padded : List ℕ) × (padding_data_pkcs7 true text ≡ (some padded, length padded))
    × (length padded % 16 ≡ 0)
    × (0 < length padded)
    × (un_padding_data_pkcs7 padded ≡ 3)
un_padding_data_pkcs7-padding_data_pkcs7_example =
    un_padding_data_pkcs7-padding_data_pkcs7 text (omega arith)

-- A clock that stands still, `rand` that gives the seed, and the cipher that changes nothing.
abbrev still : Chance
still = record { seconds = λ k. 7; micros = λ k. 300; rand = λ seed i. seed + i }

key_generator_example :
    let block = random_bytes (λ i. 7 + i) 16 0 in
    key_generator still (λ k iv m. m) (replicate 32 0) (replicate 32 1) ≡ some (block ++ block)
key_generator_example =
    key_generator_lem still (λ k iv m. m) (replicate 32 0) (replicate 32 1) 7 refl refl (λ k. refl)
