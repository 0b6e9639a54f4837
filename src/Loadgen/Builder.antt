-- ===== src/Loadgen/Builder.antt =====
-- `TransferBuilder`. The random numbers are drawn from a list of natural numbers, each taken
-- modulo its bound; an exhausted list counts as 0.
use high_load_ledger.Prelude.{
  ℕ, zero, suc, ◌+◌, ◌*◌, ◌-◌, ◌^◌, ◌%◌, ◌/◌, Bool, true, false, not, ◌&&◌, Option, none, some,
  List, [], ◌∷◌, length, ltb, leb, ◌==◌, if◌then◌else◌,
}
use high_load_ledger.Prelude.Int.{ℤ, pos, pos_part, ltb_ℤ, eq_ℤ}
use high_load_ledger.Entity.{Uuid, uuid_nil, Currency}
use high_load_ledger.Loadgen.Pool.{
  AccountPool, ExistingAccount, accounts_of, nth, currencies_with, reserve_valid,
}

-- `rng.Intn(bound)`
abbrev pub Rng : Type 0
Rng = List ℕ

unfoldable pub draw : ℕ → Rng → ℕ × Rng
draw bound [] = (0, [])
draw bound (x ∷ rng) = (x % bound, rng)

-- `randomDistinctIndexes`
unfoldable pub distinct_index : ℕ → ℕ → ℕ
distinct_index i j = if leb i j then suc j else j

unfoldable pub random_distinct_indexes : Rng → ℕ → (ℕ × ℕ) × Rng
unfolding draw distinct_index
random_distinct_indexes rng size =
    let (i, r1) = draw size rng in let (j, r2) = draw (size - 1) r1 in ((i, distinct_index i j), r2)

abbrev pub both : {A : Type 0} → Option A → Option A → Option (A × A)
both none y = none
both (some x) none = none
both (some x) (some y) = some (x, y)

-- `RandomPair`
unfoldable pub random_pair :
    Rng → Currency → AccountPool → Option (ExistingAccount × ExistingAccount) × Rng
unfolding accounts_of nth random_distinct_indexes
random_pair rng c p =
    let accounts = accounts_of c p.accounts in
    if ltb (length accounts) 2
    then (none, rng)
    else (let (ij, r) = random_distinct_indexes rng (length accounts) in
        (both (nth ij.0 accounts) (nth ij.1 accounts), r))

-- `RandomAccount`
unfoldable pub random_account : Rng → Currency → AccountPool → Option ExistingAccount × Rng
unfolding accounts_of nth draw
random_account rng c p =
    let accounts = accounts_of c p.accounts in
    if length accounts == 0
    then (none, rng)
    else (let (i, r) = draw (length accounts) rng in (nth i accounts, r))

-- The attempts of `pickFundedPair` that are left.
unfoldable pub funded_attempts :
    ℕ → List Currency → AccountPool → Rng → Option (ExistingAccount × ExistingAccount) × Rng
unfolding draw nth random_pair
funded_attempts zero candidates p rng = (none, rng)
funded_attempts (suc attempts) candidates p rng =
    let (k, r1) = draw (length candidates) rng in
    elim (nth k candidates) as (λ _. Option (ExistingAccount × ExistingAccount) × Rng) [
      | none ↦ (none, r1)
      | some c ↦
          let (pair, r2) = random_pair r1 c p in
          let again = funded_attempts attempts candidates p r2 in
          elim pair as (λ _. Option (ExistingAccount × ExistingAccount) × Rng) [
            | none ↦ again
            | some ft ↦
                if ltb_ℤ (pos 0) ft.0.balance && not (ft.0.id == ft.1.id)
                then (some ft, r2)
                else again
          ]
    ]

-- `pickFundedPair`
unfoldable pub pick_funded_pair :
    AccountPool → Rng → Option (ExistingAccount × ExistingAccount) × Rng
unfolding currencies_with funded_attempts
pick_funded_pair p rng =
    let candidates = currencies_with 2 p.accounts in
    funded_attempts (length candidates * 4) candidates p rng

pub record TransferJob : Type 0 where
  pub kind : ℕ
  pub currency : Currency
  pub from_id : Uuid
  pub to_id : Uuid
  pub amount : ℤ
  pub tx_id : Uuid
  pub reserved : Bool

-- `StreamValid`, `StreamInvalidBalance`, `StreamInvalidCurrency` and `StreamStats`
abbrev pub stream_valid : ℕ
stream_valid = 0

abbrev pub stream_invalid_balance : ℕ
stream_invalid_balance = 1

abbrev pub stream_invalid_currency : ℕ
stream_invalid_currency = 2

abbrev pub stream_stats : ℕ
stream_stats = 3

-- `math.MaxInt64 / 4`
abbrev pub invalid_balance_amount : ℕ
invalid_balance_amount = (2 ^ 63 - 1) / 4

-- The amount of a valid transfer: 1, or now and then up to the balance less 1.
unfoldable pub pick_amount : ℤ → Rng → ℕ × Rng
unfolding draw
pick_amount balance rng =
    if ltb_ℤ (pos 1) balance
    then (let (k, r1) = draw 4 rng in
        if k == 0 then (let (a, r2) = draw (pos_part balance - 1) r1 in (a + 1, r2)) else (1, r1))
    else (1, rng)

abbrev pub job_of : ℕ → ExistingAccount → ExistingAccount → ℕ → Bool → TransferJob
job_of kind a b amount reserved = record {
  kind = kind;
  currency = a.currency;
  from_id = a.id;
  to_id = b.id;
  amount = pos amount;
  tx_id = uuid_nil;
  reserved = reserved;
}

-- What `BuildValid` returns: a job or none, with the pool; or a panic.
abbrev pub reserved_job :
    ExistingAccount
    → ExistingAccount
    → ℕ
    → Option (Bool × AccountPool)
    → Option (Option TransferJob × AccountPool)
reserved_job a b amount none = none
reserved_job a b amount (some (true, p)) = some (some (job_of stream_valid a b amount true), p)
reserved_job a b amount (some (false, p)) = some (none, p)

-- `BuildValid`
unfoldable pub build_valid : AccountPool → Rng → Option (Option TransferJob × AccountPool) × Rng
unfolding pick_funded_pair pick_amount reserve_valid
build_valid p rng =
    let (pair, r1) = pick_funded_pair p rng in
    elim pair as (λ _. Option (Option TransferJob × AccountPool) × Rng) [
      | none ↦ (some (none, p), r1)
      | some ft ↦
          let (amount, r2) = pick_amount ft.0.balance r1 in
          (reserved_job ft.0 ft.1 amount (reserve_valid ft.0.id ft.1.id (pos amount) p), r2)
    ]

-- `pickSameCurrencyPair` and `BuildInvalidBalance`
unfoldable pub build_invalid_balance : AccountPool → Rng → Option TransferJob × Rng
unfolding currencies_with random_pair draw nth
build_invalid_balance p rng =
    let candidates = currencies_with 2 p.accounts in
    let (k, r1) = draw (length candidates) rng in
    elim (nth k candidates) as (λ _. Option TransferJob × Rng) [
      | none ↦ (none, rng)
      | some c ↦
          let (pair, r2) = random_pair r1 c p in
          elim pair as (λ _. Option TransferJob × Rng) [
            | none ↦ (none, r2)
            | some ft ↦
                (some (job_of stream_invalid_balance ft.0 ft.1 invalid_balance_amount false), r2)
          ]
    ]

-- The attempts of `pickDifferentCurrencyPair` to draw another currency; 0 if all fail.
unfoldable pub other_currency : ℕ → Currency → List Currency → Rng → Currency × Rng
unfolding draw nth
other_currency zero c candidates rng = (pos 0, rng)
other_currency (suc attempts) c candidates rng =
    let (k, r1) = draw (length candidates) rng in
    let again = other_currency attempts c candidates r1 in
    elim (nth k candidates) as (λ _. Currency × Rng) [
      | none ↦ again
      | some d ↦ if eq_ℤ d c then again else (d, r1)
    ]

-- The end of `pickDifferentCurrencyPair`, with both currencies drawn.
unfoldable pub pick_accounts :
    Currency → Currency → AccountPool → Rng → Option (ExistingAccount × ExistingAccount) × Rng
unfolding random_account
pick_accounts c d p rng =
    if eq_ℤ d (pos 0)
    then (none, rng)
    else (let (a, r1) = random_account rng c p in
        elim a as (λ _. Option (ExistingAccount × ExistingAccount) × Rng) [
          | none ↦ (none, r1)
          | some from_acc ↦
              let (b, r2) = random_account r1 d p in
              elim b as (λ _. Option (ExistingAccount × ExistingAccount) × Rng) [
                | none ↦ (none, r2)
                | some to_acc ↦ (some (from_acc, to_acc), r2)
              ]
        ])

-- `BuildInvalidCurrency`
unfoldable pub build_invalid_currency : AccountPool → Rng → Option TransferJob × Rng
unfolding currencies_with draw nth other_currency pick_accounts
build_invalid_currency p rng =
    let candidates = currencies_with 1 p.accounts in
    if ltb (length candidates) 2
    then (none, rng)
    else (let (k, r1) = draw (length candidates) rng in
        elim (nth k candidates) as (λ _. Option TransferJob × Rng) [
          | none ↦ (none, r1)
          | some c ↦
              let (d, r2) = other_currency 8 c candidates r1 in
              let (pair, r3) = pick_accounts c d p r2 in
              elim pair as (λ _. Option TransferJob × Rng) [
                | none ↦ (none, r3)
                | some ft ↦ (some (job_of stream_invalid_currency ft.0 ft.1 1 false), r3)
              ]
        ])
