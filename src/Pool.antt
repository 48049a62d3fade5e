-- ===== src/Pool.antt =====
-- api/src/state/pool_member.rs and pool_round.rs: what is deployed through the pool, by member and
-- in total. The sums saturate.
use godl_program.Base.{
  ℕ, List, Bool, ltb, if◌then◌else◌, get_or, set, length, replicate, saturating_add,
}

pub record PoolMember : Type 0 where
  pub authority : ℕ
  pub round_id : ℕ
  pub deployed : List ℕ
  pub total_deployed : ℕ

pub record PoolRound : Type 0 where
  pub id : ℕ
  pub deployed : List ℕ
  pub count : List ℕ
  pub total_deployed : ℕ
  pub rent_payer : ℕ

unfoldable pub reset_for_round : PoolMember → ℕ → PoolMember
reset_for_round m round_id = record m {
  round_id = round_id;
  deployed = replicate 25 0;
  total_deployed = 0;
}

-- `PoolMember::record_deploy`
unfoldable pub record_member : PoolMember → ℕ → ℕ → PoolMember
record_member m square amount =
    if ltb square (length m.deployed)
    then record m {
      deployed = set m.deployed square (saturating_add (get_or m.deployed square 0) amount);
      total_deployed = saturating_add m.total_deployed amount;
    }
    else m

-- `PoolRound::reset`
unfoldable pub reset : PoolRound → ℕ → ℕ → PoolRound
reset r id rent_payer = record {
  id = id;
  deployed = replicate 25 0;
  count = replicate 25 0;
  total_deployed = 0;
  rent_payer = rent_payer;
}

-- `PoolRound::record_deploy`
unfoldable pub record_round : PoolRound → ℕ → ℕ → Bool → PoolRound
record_round r square amount is_new_member =
    if ltb square (length r.deployed)
    then record r {
      deployed = set r.deployed square (saturating_add (get_or r.deployed square 0) amount);
      count =
          if is_new_member
          then set r.count square (saturating_add (get_or r.count square 0) 1)
          else r.count;
      total_deployed = saturating_add r.total_deployed amount;
    }
    else r
