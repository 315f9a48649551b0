-- ===== src/Member/Laws.antt =====
-- The timestamps of a stream, and the safe point of a cluster.
use Prim.Native.Nat.{max}
use mock_tikv.Prelude.{
  ℕ, ◌≡◌, ◌⊎◌, inl, inr, refl, sym, ap, ◌∙◌, Bool, true, false, not, List, [], ◌∷◌, ◌++◌, All, ◌==◌,
  if◌then◌else◌, arith,
}
use mock_tikv.Cluster.{Cluster, update_safe_point}
use mock_tikv.Server.{TsMu, get_ts}
use mock_tikv.Server.Increasing.{Before, Before-trans, get_ts-Before, Increasing}
use mock_tikv.Member.{
  Instance, PdReply, pd_answer, validated, get_gc_safe_point, update_gc_safe_point, TsoRequest,
  TsoResponse, TsoEnd, tso_response, tso_sent, tso, tso_broken, tso_mismatch,
}

-- The timestamps that a stream sends
abbrev pub stamps : List TsoResponse → List TsMu
stamps [] = []
stamps (r ∷ rs) = r.timestamp ∷ stamps rs

abbrev pub sent : TsMu × List TsoResponse × TsoEnd → List TsMu
sent (ts, rs, end) = stamps rs

-- A timestamp, or one before it
abbrev pub UpTo : TsMu → TsMu → Type 0
UpTo a b = (a ≡ b) ⊎ Before a b

UpTo-after : (a b c : TsMu) → Before a b → UpTo b c → Before a c
UpTo-after a b c h (inl q) = rw (← q) h
UpTo-after a b c h (inr k) = Before-trans a b c h k

-- Where a stream leaves the timestamps: its answers lie behind the state before, in order, and none
-- lies behind the state afterwards.
record Runs (before : TsMu) (run : TsMu × List TsoResponse × TsoEnd) : Type 0 where
  onwards : UpTo before run.0
  after : All (Before before) (sent run)
  up_to : All (λ t. UpTo t run.0) (sent run)
  increasing : Increasing (sent run)

All-Before-trans :
    (a b : TsMu) (ts : List TsMu) → Before a b → All (Before b) ts → All (Before a) ts
All-Before-trans a b [] h k = tt
All-Before-trans a b (t ∷ ts) h (k, ks) = (Before-trans a b t h k, All-Before-trans a b ts h ks)

sent-Runs :
    (before next : TsMu) (r : TsoResponse) (run : TsMu × List TsoResponse × TsoEnd)
    → Before before next
    → r.timestamp ≡ next
    → Runs next run
    → Runs before (tso_sent r run)
sent-Runs before next r (ts, rs, end) h q runs = record {
  onwards = inr (UpTo-after before next ts h runs.onwards);
  after = (rw q h, All-Before-trans before next (stamps rs) h runs.after);
  up_to = (rw q runs.onwards, runs.up_to);
  increasing = (rw q runs.after, runs.increasing);
}

tso-Runs :
    (c : Cluster) (end : TsoEnd) (ts : TsMu) (rs : List TsoRequest) → Runs ts (tso c end ts rs)
unfolding tso
tso-Runs c end ts [] = record { onwards = inl refl; after = tt; up_to = tt; increasing = tt }
tso-Runs c end ts (r ∷ rs) =
    go (r.header == c.cluster_id) r.sends (tso-Runs c end (get_ts r.now ts) rs)
  where
    go :
        (b sends : Bool)
        → Runs (get_ts r.now ts) (tso c end (get_ts r.now ts) rs)
        → Runs ts (
            if not b
            then (ts, [], tso_mismatch c.cluster_id r.header)
            else (if sends
                then tso_sent
                    (tso_response c r.count (get_ts r.now ts))
                    (tso c end (get_ts r.now ts) rs)
                else (get_ts r.now ts, [], tso_broken)))
    go false sends runs = record { onwards = inl refl; after = tt; up_to = tt; increasing = tt }
    go true true runs =
        sent-Runs ts (get_ts r.now ts) (tso_response c r.count (get_ts r.now ts))
          (tso c end (get_ts r.now ts) rs) (get_ts-Before r.now ts) refl runs
    go true false runs = record {
      onwards = inr (get_ts-Before r.now ts);
      after = tt;
      up_to = tt;
      increasing = tt;
    }

All-Before-append :
    (t : TsMu) (xs ys : List TsMu)
    → All (Before t) xs
    → All (Before t) ys
    → All (Before t) (xs ++ ys)
All-Before-append t [] ys h k = k
All-Before-append t (x ∷ xs) ys (h, hs) k = (h, All-Before-append t xs ys hs k)

All-UpTo-Before : (t b : TsMu) (ys : List TsMu) → UpTo t b → All (Before b) ys → All (Before t) ys
All-UpTo-Before t b ys (inl q) k = rw q k
All-UpTo-Before t b ys (inr h) k = All-Before-trans t b ys h k

Increasing-append :
    (b : TsMu) (xs ys : List TsMu)
    → All (λ t. UpTo t b) xs
    → Increasing xs
    → All (Before b) ys
    → Increasing ys
    → Increasing (xs ++ ys)
Increasing-append b [] ys u i k j = j
Increasing-append b (x ∷ xs) ys (u, us) (i, is) k j =
    (All-Before-append x xs ys i (All-UpTo-Before x b ys u k), Increasing-append b xs ys us is k j)

-- Of the timestamps that two streams of Tso send, one after the other, each is before all later
-- ones, whatever the clock reads, be they of one cluster or of two.
pub tso-Increasing :
    (c c' : Cluster) (end end' : TsoEnd) (ts : TsMu) (rs rs' : List TsoRequest)
    → Increasing (sent (tso c end ts rs) ++ sent (tso c' end' (tso c end ts rs).0 rs'))
tso-Increasing c c' end end' ts rs rs' =
    let first : Runs ts (tso c end ts rs) = tso-Runs c end ts rs in
    let second : Runs (tso c end ts rs).0 (tso c' end' (tso c end ts rs).0 rs') =
      tso-Runs c' end' (tso c end ts rs).0 rs' in
    Increasing-append (tso c end ts rs).0 (sent (tso c end ts rs))
      (sent (tso c' end' (tso c end ts rs).0 rs')) first.up_to first.increasing second.after
      second.increasing

kept_safe_point :
    (c : Cluster) (safe_point : ℕ)
    → ((update_safe_point c safe_point).safe_point ≡ max c.safe_point safe_point)
      × ((update_safe_point c safe_point).cluster_id ≡ c.cluster_id)
unfolding update_safe_point
kept_safe_point c safe_point = (ground arith, ground arith)

-- A request that names the cluster goes through.
validated-same {ℓ κ} :
    {W : Type ℓ} {A : Type κ} (c : Cluster) (header : ℕ) (w : W) (result : W × PdReply A)
    → header ≡ c.cluster_id
    → validated c header w result ≡ result
unfolding validated
validated-same c header w result q =
    let t : (header == c.cluster_id) ≡ true = ground (arith, q) in rw t refl

get_gc_safe_point-same :
    {Db : Type 0} (i : Instance Db) (header : ℕ)
    → header ≡ i.cluster.cluster_id
    → (get_gc_safe_point i header).1 ≡ pd_answer i.cluster.cluster_id i.cluster.safe_point
unfolding get_gc_safe_point
get_gc_safe_point-same i header q =
    ap (λ r. r.1)
      (validated-same i.cluster header i (i, pd_answer i.cluster.cluster_id i.cluster.safe_point) q)

update_gc_safe_point-same :
    {Db : Type 0} (i : Instance Db) (safe_point : ℕ)
    → ◌≡◌ {A = Instance Db × PdReply ℕ} (update_gc_safe_point i i.cluster.cluster_id safe_point) (
      record i { cluster = update_safe_point i.cluster safe_point },
      pd_answer i.cluster.cluster_id safe_point,
    )
unfolding update_gc_safe_point
update_gc_safe_point-same i safe_point =
    validated-same i.cluster i.cluster.cluster_id i
      (
        record i { cluster = update_safe_point i.cluster safe_point },
        pd_answer i.cluster.cluster_id safe_point,
      )
      refl

-- UpdateGCSafePoint of a request for this cluster answers the safe point of the request, and
-- GetGCSafePoint then answers the greater of that and the safe point before.
pub get-update_gc_safe_point :
    {Db : Type 0} (i : Instance Db) (safe_point : ℕ)
    → ((update_gc_safe_point i i.cluster.cluster_id safe_point).1
        ≡ pd_answer i.cluster.cluster_id safe_point)
      × ((get_gc_safe_point
            (update_gc_safe_point i i.cluster.cluster_id safe_point).0
            i.cluster.cluster_id).1
          ≡ pd_answer i.cluster.cluster_id (max i.cluster.safe_point safe_point))
get-update_gc_safe_point i safe_point =
    let (point, id) = kept_safe_point i.cluster safe_point in
    let updated : Instance _ = record i { cluster = update_safe_point i.cluster safe_point } in
    (
      ap (λ r. r.1) (update_gc_safe_point-same i safe_point),
      ap (λ r. (get_gc_safe_point r.0 i.cluster.cluster_id).1)
            (update_gc_safe_point-same i safe_point)
          ∙ get_gc_safe_point-same updated i.cluster.cluster_id (sym id)
          ∙ rw (id, point) refl,
    )
