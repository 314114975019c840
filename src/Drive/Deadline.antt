-- ===== src/Drive/Deadline.antt =====
-- What src/atomic-swap/drive.ts does with its deadline, and with a detail that came through the
-- wire schema.
use Prim.Native.String.{String}
use mathlib.Core.Option
use miradex_client.Prelude.{
  ℕ, ◌≡◌, refl, sym, ap, ◌⊎◌, inl, inr, Bool, true, false, not, ◌&&◌, Option, none, some, List, [],
  ◌∷◌, arith, leb, All,
}
use miradex_client.Errors.Codes.{Result, ok, err, protocol_error, e_drive_timeout}
use miradex_client.Status.{is_terminal, is_pre_funding, pre_funding_cases}
use miradex_client.Protocol.{
  ProtocolParams, ProtocolData, atomic_swap, other_protocol, SwapDetail, extract_protocol_data,
  parse_protocol_data,
}
use miradex_client.Drive.{UnsignedPsbt, Services, Tick, State, post_presigs}
use miradex_client.Drive.Fund.{submit_presigs}
use miradex_client.Drive.Loop.{dispatch, round, drive_from, failed}

-- The detail is one for which the deadline counts.
abbrev pub counts_deadline : Result SwapDetail → Bool
counts_deadline (ok d) = is_pre_funding d.status
counts_deadline (err e) = false

-- The round is at or past the deadline, and is not aborted.
abbrev pub is_overdue : ℕ → Tick → Bool
is_overdue deadline t = not t.aborted && leb deadline t.now && counts_deadline t.detail

pre_funding_is_live : (status : String) → is_pre_funding status ≡ true → is_terminal status ≡ false
unfolding is_terminal
pre_funding_is_live status h = among (pre_funding_cases status h)
  where
    among :
        ("pending" ≡ status) ⊎ (("awaiting_funding" ≡ status) ⊎ ("initializing" ≡ status))
        → is_terminal status ≡ false
    among (inl e) = sym (ap is_terminal e)
    among (inr (inl e)) = sym (ap is_terminal e)
    among (inr (inr e)) = sym (ap is_terminal e)

module _ (sv : Services) where
  -- A round that is not aborted and begins at or past the deadline with the status before the funding ends the loop
  -- with E_DRIVE_TIMEOUT, and does nothing else, whichever action the server asks for.
  overdue_fails :
      (deadline : ℕ) (t : Tick) (ts : List Tick) (s : State)
      → is_overdue deadline t ≡ true
      → drive_from sv deadline s (t ∷ ts) ≡ ([], failed (protocol_error e_drive_timeout))
  unfolding drive_from round dispatch
  overdue_fails deadline t ts s h = at_detail t.detail refl
    where
      at_detail :
          (r : Result SwapDetail)
          → t.detail ≡ r
          → drive_from sv deadline s (t ∷ ts) ≡ ([], failed (protocol_error e_drive_timeout))
      at_detail (ok d) e = ground (arith, pre_funding_is_live d.status)
      at_detail (err x) e = absurd (ground arith)

  round_ignores :
      (first second : ℕ) (t : Tick) (s : State)
      → counts_deadline t.detail ≡ false
      → round sv first t s ≡ round sv second t s
  unfolding round dispatch
  round_ignores first second t s h = at_detail t.detail refl
    where
      at_detail : (r : Result SwapDetail) → t.detail ≡ r → round sv first t s ≡ round sv second t s
      at_detail (ok d) e = ground arith
      at_detail (err x) e = ground arith

  -- A run in which no detail has a status before the funding is the same for every deadline: the
  -- deadline does not end the wait of a swap that was funded.
  pub funded_runs_ignore_deadline :
      (first second : ℕ) (ts : List Tick) (s : State)
      → All (λ t. counts_deadline t.detail ≡ false) ts
      → drive_from sv first s ts ≡ drive_from sv second s ts
  unfolding drive_from
  funded_runs_ignore_deadline first second [] s h = refl
  funded_runs_ignore_deadline first second (t ∷ ts) s h = ground (
    arith,
    round_ignores first second t s h.0,
    funded_runs_ignore_deadline first second ts (round sv second t s).1 h.1,
  )

-- The detail as it is after the wire schema.
abbrev pub parsed : SwapDetail → SwapDetail
parsed d = record d { protocol_data = Option.map parse_protocol_data d.protocol_data }

no_digest :
    (d : SwapDetail) (q : Option ProtocolData)
    → (extract_protocol_data
        (record d { protocol_data = Option.map parse_protocol_data q })).redeem_digest_hex
      ≡ none
unfolding extract_protocol_data parse_protocol_data
no_digest d none = refl
no_digest d (some (atomic_swap none)) = refl
no_digest d (some (atomic_swap (some p))) = refl
no_digest d (some other_protocol) = refl

-- With a detail that came through the wire schema, the driver posts its pre-signatures each time:
-- that the server holds the refund signatures already goes unseen, whatever it sent.
pub parsed_never_skips :
    (sv : Services) (t : Tick) (d : SwapDetail) (p : ProtocolParams) (address : String)
    (unsigned : UnsignedPsbt) (signed pre_sigs : String) (s : State)
    → (submit_presigs sv t
        (extract_protocol_data (parsed d))
        p
        address
        (unsigned, signed, pre_sigs)
        s).0
      ≡ post_presigs unsigned.psbt address pre_sigs ∷ []
unfolding submit_presigs
parsed_never_skips sv t d p address unsigned signed pre_sigs s =
    ground (arith, no_digest d d.protocol_data)
