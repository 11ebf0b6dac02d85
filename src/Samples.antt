-- ===== src/Samples.antt =====
-- Concrete parameters, rows and databases for the tests: floats as natural thousandths, a plain
-- alphabet, and a server whose points are all near each other.
use Prim.Native.Char.{code}
use inwheel_server.Prelude.{
  ◌≡◌, sym, refl, ◌+◌, ◌-◌, ◌*◌, ◌/◌, ◌^◌, String, true, false, none, some, [], ◌∷◌, ◌==◌, ◌&&◌,
  if◌then◌else◌, eqb, eqb_iff, ltb, leb, arith, eq_iff,
}
use inwheel_server.Float64.{Arithmetic, IsOrdered, IsTotal}
use inwheel_server.Models.Profile.{AccessibilityProfile, empty_profile}
use inwheel_server.Models.Place.{Place, UnmatchedExternal, status_active}
use inwheel_server.Db.{Db, Postgres}
use inwheel_server.Unmatched.Laws.{HasQueue}
use inwheel_server.Identity.Normalize.{Unicode}

abbrev pub thousandths : Arithmetic
thousandths = record {
  lit = λ m k. m * 1000 / 10 ^ k;
  of_int = λ n. n * 1000;
  neg = λ a. 0;
  add = λ a b. a + b;
  sub = λ a b. a - b;
  mul = λ a b. a * b / 1000;
  div = λ a b. a * 1000 / b;
  lt = ltb;
  le = leb;
  pi = 3142;
  sin = λ a. a;
  cos = λ a. 1000;
  sqrt = λ a. a;
  atan2 = λ a b. a;
  parse_float = λ s. none;
}

pub thousandths-IsOrdered : IsOrdered thousandths
thousandths-IsOrdered = record {
  lt_irrefl = λ a. ground arith;
  lt_trans = λ a b c h k. ground arith;
  lt_of_between = λ a b c n h k. ground arith;
  number_of_lt = λ a b h. ground arith;
  minus_one_number = refl;
  minus_one_low = refl;
  minus_one_high = refl;
}

pub thousandths-IsTotal : IsTotal thousandths
thousandths-IsTotal = record {
  le_or_lt = λ a b n m. ground arith;
  numbers_of_le = λ a b h. ground arith;
  numbers_of_lt = λ a b h. ground arith;
}

abbrev pub latin : Unicode
latin = record {
  fold = λ s. some s;
  to_lower = λ s. s;
  is_letter = λ c. leb b'a' (code c) && leb (code c) b'z';
  is_digit = λ c. leb b'0' (code c) && leb (code c) b'9';
  equal_fold = λ s t. s == t;
}

abbrev pub server : Postgres
server = record {
  gen_random_uuid = λ n. if eqb n 0 then "u0" else "u1";
  st_dwithin = λ lng lat lng' lat' radius. true;
  st_nearer = λ lng lat a b c d. true;
  st_in_envelope = λ a b c d e f. true;
  ilike = λ name pattern. true;
  uuid_less = λ a b. a == "p1" && b == "p2";
  timestamptz = λ t. t / 8 * 8;
  jsonb = λ text. if text == "{\"b\":1,\"a\":2}" then "{\"a\": 2, \"b\": 1}" else text;
}

abbrev pub cafe : Place
cafe = record {
  id = "p1";
  osm_id = 7;
  osm_type = "node";
  name = "blue cup";
  lng = 0;
  lat = 0;
  geometry = none;
  category = "cafe";
  rank = 2;
  parent_id = none;
  accessibility = none;
  tags = [];
  external_ids = [];
  status = status_active;
  source = "osm";
  submitted_by = none;
  submitted_at = none;
  created_at = 0;
  updated_at = 0;
}

abbrev pub verified : AccessibilityProfile
verified = record empty_profile { id = "a1"; place_id = "p1"; user_verified = true }

abbrev pub waiting : UnmatchedExternal
waiting = record {
  id = 4;
  source = "foo";
  source_id = "f1";
  name = "blue cup";
  category = "cafe";
  street = "";
  house_number = "";
  lat = 0;
  lng = 0;
  payload = "{}";
  last_attempted = 0;
  attempts = 1;
}

abbrev pub stranger : UnmatchedExternal
stranger = record waiting { id = 5; source_id = "f2"; name = "red door"; category = "shop" }

abbrev pub city : Db
city = record {
  places = cafe ∷ [];
  profiles = verified ∷ [];
  queue = waiting ∷ stranger ∷ [];
  next_queue_id = 6;
  next_uuid = 0;
  api_keys = [];
  write_logs = [];
  clock = 100;
  script = [];
  locked = none;
}

distinct_keys : (k : String) → ("f1" == k) ≡ true → ("f2" == k) ≡ false
distinct_keys k h =
    let same : "f1" ≡ k = ground (arith, eq_iff "f1" k) in
    let other : ("f2" == "f1") ≡ false = refl in rw (sym same) other

pub city-HasQueue : HasQueue city
city-HasQueue = record {
  ids = λ id. ground (arith, eqb_iff 4 id, eqb_iff 5 id);
  keys = λ s k. ground (arith, distinct_keys k);
  below = (omega arith, (omega arith, tt));
}
