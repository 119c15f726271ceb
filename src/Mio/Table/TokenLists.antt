-- ===== src/Mio/Table/TokenLists.antt =====
-- connection/mio/streams.rs: what keeps the tokens of a list of streams apart.
use protun.Base.{ℕ, ◌+◌, ◌<◌, ◌≡◌, ◌≢◌, refl, none, List, [], ◌∷◌, ◌++◌, arith, ite_elim}
use protun.Client.Interface.{StreamIds}
use protun.Mio.Table.{
  Mio, MioStreamInfo, Interest, get_stream_by_token, set_stream, retain, set_interest, new,
  poll_waker_token,
}

module _ (ids : StreamIds) (mio : Mio) where
  abbrev pub Infos : Type 0
  Infos = List (MioStreamInfo ids mio)

  -- The tokens are not the waker's, are below the next one, and differ.
  abbrev pub AreTokens : ℕ → Infos → Type 0
  AreTokens next [] = Unit
  AreTokens next (s ∷ ss) =
      (poll_waker_token < s.token)
      × (s.token < next)
      × (get_stream_by_token ids mio ss s.token ≡ none)
      × AreTokens next ss

  pub no_token :
      (next n : ℕ) (ss : Infos)
      → AreTokens next ss
      → n ≡ next
      → get_stream_by_token ids mio ss n ≡ none
  no_token next n [] h e = refl
  no_token next n (s ∷ ss) h e = ground (arith, no_token next n ss h.3)

  token_snoc :
      (n : ℕ) (ss : Infos) (x : MioStreamInfo ids mio)
      → get_stream_by_token ids mio ss n ≡ none
      → x.token ≢ n
      → get_stream_by_token ids mio (ss ++ x ∷ []) n ≡ none
  token_snoc n [] x h other = ground arith
  token_snoc n (s ∷ ss) x h other = ground (arith, token_snoc n ss x)

  pub snoc-AreTokens :
      (next : ℕ) (ss : Infos) (x : MioStreamInfo ids mio)
      → AreTokens next ss
      → poll_waker_token < next
      → x.token ≡ next
      → AreTokens (next + 1) (ss ++ x ∷ [])
  snoc-AreTokens next [] x h positive e = (omega arith, omega arith, refl, tt)
  snoc-AreTokens next (s ∷ ss) x (above, below, new, rest) positive e = (
    above,
    omega arith,
    token_snoc s.token ss x new (omega arith),
    snoc-AreTokens next ss x rest positive e,
  )

  pub later-AreTokens : (next : ℕ) (ss : Infos) → AreTokens next ss → AreTokens (next + 1) ss
  later-AreTokens next [] h = tt
  later-AreTokens next (s ∷ ss) (above, below, new, rest) =
      (above, omega arith, new, later-AreTokens next ss rest)

  token_retain :
      (id : ids.StreamId) (n : ℕ) (ss : Infos)
      → get_stream_by_token ids mio ss n ≡ none
      → get_stream_by_token ids mio (retain ids mio id ss) n ≡ none
  token_retain id n [] h = refl
  token_retain id n (s ∷ ss) h = ground (arith, token_retain id n ss)

  pub retain-AreTokens :
      (id : ids.StreamId) (next : ℕ) (ss : Infos)
      → AreTokens next ss
      → AreTokens next (retain ids mio id ss)
  retain-AreTokens id next [] h = tt
  retain-AreTokens id next (s ∷ ss) (above, below, new, rest) =
      let kept = retain-AreTokens id next ss rest in
      ite_elim (AreTokens next) (ids.StreamId-discrete s.stream_id id) (λ e. kept)
        (λ other. (above, below, token_retain id s.token ss new, kept))

  token_set :
      (id : ids.StreamId) (interest : Interest) (n : ℕ) (ss : Infos)
      → get_stream_by_token ids mio ss n ≡ none
      → get_stream_by_token ids mio (set_interest ids mio id interest ss) n ≡ none
  token_set id interest n [] h = refl
  token_set id interest n (s ∷ ss) h = ground (arith, token_set id interest n ss)

  pub set-AreTokens :
      (id : ids.StreamId) (interest : Interest) (next : ℕ) (ss : Infos)
      → AreTokens next ss
      → AreTokens next (set_interest ids mio id interest ss)
  set-AreTokens id interest next [] h = tt
  set-AreTokens id interest next (s ∷ ss) (above, below, new, rest) =
      ite_elim (AreTokens next) (ids.StreamId-discrete s.stream_id id)
        (λ e. (above, below, new, rest))
        (λ other. (
          above,
          below,
          token_set id interest s.token ss new,
          set-AreTokens id interest next ss rest,
        ))

  token_put :
      (id : ids.StreamId) (stream : mio.Stream) (n : ℕ) (ss : Infos)
      → get_stream_by_token ids mio ss n ≡ none
      → get_stream_by_token ids mio (set_stream ids mio ss id stream) n ≡ none
  token_put id stream n [] h = refl
  token_put id stream n (s ∷ ss) h = ground (arith, token_put id stream n ss)

  pub put-AreTokens :
      (id : ids.StreamId) (stream : mio.Stream) (next : ℕ) (ss : Infos)
      → AreTokens next ss
      → AreTokens next (set_stream ids mio ss id stream)
  put-AreTokens id stream next [] h = tt
  put-AreTokens id stream next (s ∷ ss) (above, below, new, rest) =
      ite_elim (AreTokens next) (ids.StreamId-discrete s.stream_id id)
        (λ e. (above, below, new, rest))
        (λ other.
          (above, below, token_put id stream s.token ss new, put-AreTokens id stream next ss rest))
