-- ===== src/Vio/Reader.antt =====
-- The two functions that `Vio::read` may be, `vioRead` and `vioReadBuff`, behind one interface.
use server_simple.Base.{
  ℕ, ◌≡◌, refl, sym, ap, ◌∙◌, Option, List, [], ◌∷◌, ◌++◌, append_assoc, ◌≤◌, length,
}
use server_simple.Socket.{taken}
use server_simple.Socket.Laws.{stream}
use server_simple.Vio.{Vio, vio_read, vio_read_buff}
use server_simple.Vio.Laws.{vio_read-Reads}
use server_simple.Vio.Buffered.{IsBuffered, pending, Buffers, vio_read_buff-Buffers}

-- A way to read: in which states it works, which bytes are still to be handed out in a state, and that
-- a read hands out the first of them, at most as many as asked for, and none else.
pub record Reader : Type 1 where
  pub read : Vio → ℕ → Option (List ℕ) × Vio
  pub IsReady : Vio → Type 0
  pub unread : Vio → List ℕ
  pub keeps : (vio : Vio) (size : ℕ) → IsReady vio → IsReady (read vio size).1
  pub at_most : (vio : Vio) (size : ℕ) → IsReady vio → length (taken (read vio size).0) ≤ size
  pub in_order :
      (vio : Vio) (size : ℕ)
      → IsReady vio
      → unread vio ≡ taken (read vio size).0 ++ unread (read vio size).1

abbrev pub direct : Reader
direct = record {
  read = vio_read;
  IsReady = λ vio. Unit;
  unread = λ vio. stream vio.kernel.incoming;
  keeps = λ vio size x. tt;
  at_most = λ vio size x. (vio_read-Reads vio size).within;
  in_order = λ vio size x. (vio_read-Reads vio size).whole;
}

pub buffered_in_order :
    {vio v : Vio} {size : ℕ} {r : Option (List ℕ)}
    → Buffers vio size r v
    → pending vio ++ stream vio.kernel.incoming ≡ taken r ++ (pending v ++ stream v.kernel.incoming)
buffered_in_order {vio} {v} {size} {r} b =
    ap (◌++◌ (pending vio)) b.whole
    ∙ sym (append_assoc (pending vio) b.fresh (stream v.kernel.incoming))
    ∙ ap (λ xs. xs ++ stream v.kernel.incoming) b.in_order
    ∙ append_assoc (taken r) (pending v) (stream v.kernel.incoming)

abbrev pub buffered : Reader
buffered = record {
  read = vio_read_buff;
  IsReady = IsBuffered;
  unread = λ vio. pending vio ++ stream vio.kernel.incoming;
  keeps = λ vio size x. (vio_read_buff-Buffers vio size x).buffered;
  at_most = λ vio size x. (vio_read_buff-Buffers vio size x).at_most;
  in_order = λ vio size x. buffered_in_order (vio_read_buff-Buffers vio size x);
}

-- Reads of these sizes, one after the other: all their bytes, and what is left.
abbrev pub read_all : (Vio → ℕ → Option (List ℕ) × Vio) → Vio → List ℕ → List ℕ × Vio
read_all read vio [] = ([], vio)
read_all read vio (size ∷ sizes) =
    let (r, v) = read vio size in let (rs, w) = read_all read v sizes in (taken r ++ rs, w)

module _ (R : Reader) where
  open R use {read, IsReady, unread, keeps, in_order}

  -- Any number of reads hands out a beginning of the bytes.
  pub read_all-unread :
      (vio : Vio) (sizes : List ℕ)
      → IsReady vio
      → unread vio ≡ (read_all read vio sizes).0 ++ unread (read_all read vio sizes).1
  read_all-unread vio [] x = refl
  read_all-unread vio (size ∷ sizes) x =
      let (r, v) = read vio size in
      in_order vio size x
      ∙ ap (◌++◌ (taken r)) (read_all-unread v sizes (keeps vio size x))
      ∙ sym (append_assoc (taken r) _ _)

-- However a connection is read, through `vioReadBuff` with an empty read buffer or through `vioRead`,
-- and in parts of any sizes, the bytes that were handed out and then those that are not yet are the same
-- ones: the read buffer loses none, repeats none and changes no order.
pub read_all-read_all :
    (vio vio' : Vio) (sizes sizes' : List ℕ)
    → IsBuffered vio
    → pending vio ≡ []
    → vio'.kernel ≡ vio.kernel
    → let (bytes, v) = read_all vio_read_buff vio sizes in
      let (bytes', v') = read_all vio_read vio' sizes' in
      bytes ++ (pending v ++ stream v.kernel.incoming) ≡ bytes' ++ stream v'.kernel.incoming
read_all-read_all vio vio' sizes sizes' b none_pending same =
    sym (read_all-unread buffered vio sizes b)
    ∙ ap (λ bs. bs ++ stream vio.kernel.incoming) none_pending
    ∙ ap (λ k. stream k.incoming) (sym same)
    ∙ read_all-unread direct vio' sizes' tt
