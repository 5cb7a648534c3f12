-- ===== src/Pipe/Contract.antt =====
-- The comment of src/io/inc/libp/io_pipe.h as a contract: what a pipe promises of recv() and send(),
-- in terms of the bytes that it has taken for its peer and of those that its peer has sent.
use tcp_striper.Base.{
  ℕ, ◌≤◌, ◌<◌, ◌≡◌, ◌++◌, ◌^◌, ◌⊎◌, Bool, true, false, Option, none, some, [], take, length,
}
use tcp_striper.Serialize.{Bytes}
use tcp_striper.Run.{Returns}
use tcp_striper.Pipe.{Flags, IoPipe}

-- A call of send() on `bs`. A result of -1 takes nothing; otherwise a front part is taken, in
-- order. On -1 and on a partial send `writable` is cleared.
abbrev pub Sent : Bytes → Bytes → Flags → Bytes → Option ℕ → Type 0
Sent before after flags bs none = (after ≡ before) × (flags.writable ≡ false)
Sent before after flags bs (some n) =
    (n ≤ length bs) × (after ≡ before ++ take n bs) × (n < length bs → flags.writable ≡ false)

-- A call of recv() into `len` bytes. The bytes returned are the next ones to arrive. On -1
-- `readable` is cleared; no bytes are the FIN, which comes after all else.
abbrev pub Received : Bytes → Bytes → Flags → ℕ → Option Bytes → Type 0
Received before after flags len none = (after ≡ before) × (flags.readable ≡ false)
Received before after flags len (some []) =
    (before ≡ []) × (after ≡ []) × (flags.readable ≡ false) × (flags.fin_rcvd ≡ true)
Received before after flags len (some bs) =
    (length bs ≤ len) × (before ≡ bs ++ after) × (flags.readable ≡ true)

module _ {S : Type 0} (io : IoPipe S) where
  -- The contract of a pipe whose send() may be called with the packets that `Fit`.
  pub record ContractFor (Fit : Bytes → Type 0) : Type 1 where
    -- The states in which recv() and send() may be called.
    pub Inv : S → Type 0
    -- All that send() has taken, and what recv() has yet to return.
    pub sent : S → Bytes
    pub arriving : S → Bytes
    pub send_law :
        (s : S) (bs : Bytes)
        → Inv s
        → Fit bs
        → Returns
            (λ (p : S × Option ℕ).
              Inv p.0
              × (arriving p.0 ≡ arriving s)
              × Sent (sent s) (sent p.0) (io.flags p.0) bs p.1)
            (io.send s bs)
    pub recv_law :
        (s : S) (len : ℕ)
        → Inv s
        → 0 < len
        → Returns
            (λ (p : S × Option Bytes).
              Inv p.0
              × (sent p.0 ≡ sent s)
              × Received (arriving s) (arriving p.0) (io.flags p.0) len p.1)
            (io.recv s len)

  -- With packets of any length, and with those whose length is an `int`.
  abbrev pub Contract : Type 1
  Contract = ContractFor (λ bs. Unit {0})

  abbrev pub IsShort : Bytes → Type 0
  IsShort bs = length bs < 2 ^ 31

  abbrev pub ShortContract : Type 1
  ShortContract = ContractFor IsShort

  abbrev pub SendPost : {Fit : Bytes → Type 0} → ContractFor Fit → S → Bytes → S × Option ℕ → Type 0
  SendPost c s bs p =
      c.Inv p.0
      × (c.arriving p.0 ≡ c.arriving s)
      × Sent (c.sent s) (c.sent p.0) (io.flags p.0) bs p.1

  abbrev pub RecvPost : {Fit : Bytes → Type 0} → ContractFor Fit → S → ℕ → S × Option Bytes → Type 0
  RecvPost c s len p =
      c.Inv p.0
      × (c.sent p.0 ≡ c.sent s)
      × Received (c.arriving s) (c.arriving p.0) (io.flags p.0) len p.1

  -- send_fin() before the FIN is out: on success `fin_sent` is raised and `writable` cleared. The
  -- streams are left alone.
  abbrev pub FinPost : Contract → S → S × Bool → Type 0
  FinPost c s p =
      c.Inv p.0
      × (c.sent p.0 ≡ c.sent s)
      × (c.arriving p.0 ≡ c.arriving s)
      × (p.1 ≡ true → ((io.flags p.0).fin_sent ≡ true) × ((io.flags p.0).writable ≡ false))

  -- "send() either accepts the whole packet or fails with -1".
  abbrev pub IsAtomic : (S → Type 0) → Type 0
  IsAtomic Inv =
      (s : S) (bs : Bytes)
      → Inv s
      → IsShort bs
      → Returns (λ (p : S × Option ℕ). (p.1 ≡ none) ⊎ (p.1 ≡ some (length bs))) (io.send s bs)

  abbrev pub FinLaw : Contract → Type 0
  FinLaw c =
      (s : S) → c.Inv s → (io.flags s).fin_sent ≡ false → Returns (FinPost c s) (io.send_fin s)

  -- "calling send_fin() [...] raises the 'fin_sent' bit": send() does not touch it.
  abbrev pub SendKeepsFin : Contract → Type 0
  SendKeepsFin c =
      (s : S) (bs : Bytes)
      → c.Inv s
      → Returns (λ (p : S × Option ℕ). (io.flags p.0).fin_sent ≡ (io.flags s).fin_sent)
          (io.send s bs)

  -- "When a TX buffer congestion clears [...] pipe sets [...] 'writable'": recv() does not.
  abbrev pub RecvKeepsShut : Contract → Type 0
  RecvKeepsShut c =
      (s : S) (len : ℕ)
      → c.Inv s
      → 0 < len
      → Returns
          (λ (p : S × Option Bytes). (io.flags p.0).writable ≡ true → (io.flags s).writable ≡ true)
          (io.recv s len)
