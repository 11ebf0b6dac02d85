-- ===== src/Api/List/Tests.antt =====
-- Two listings of cmd/api/main.go read to their end.
use mathlib.Core.List.{Permᴰ}
use inwheel_server.Prelude.{
  String, true, false, none, some, List, [], ◌∷◌, ◌≡◌, refl, sym, arith, ◌==◌, eq_iff, map,
  find_first,
}
use inwheel_server.Models.Place.{Place}
use inwheel_server.Db.{Db}
use inwheel_server.Pagination.Tests.{plain_codecs, plain_codecs-IsCodec}
use inwheel_server.Validation.{places_query}
use inwheel_server.Pagination.{encode, decode, split_bar}
use inwheel_server.Db.{statement}
use inwheel_server.PlaceRepo.Places.{has_place}
use inwheel_server.Api.List.{
  ListParams, list_places, find_listed, preload, cut_page, sort_listed, insert_listed, name_matches,
  after_cursor, area, with_profile,
}
use inwheel_server.Api.List.Order.{IsUuidOrder, IsListed}
use inwheel_server.Api.List.Walk.{walk, walk-list_places}
use inwheel_server.Api.List.Unordered.{list_places-Perm}
use inwheel_server.Samples.{thousandths, server, cafe, city, verified}

abbrev bar : Place
bar = record cafe { id = "p2"; name = "red bar" }

abbrev two_places : Db
two_places = record city { places = cafe ∷ bar ∷ [] }

abbrev one_a_page : ListParams
one_a_page = record {
  limit = some 1;
  query = record {
    lng = none;
    lat = none;
    radius = none;
    min_lng = none;
    min_lat = none;
    max_lng = none;
    max_lat = none;
    cursor = none;
    q = none;
  };
}

not_both : (a : String) → (a == "p1") ≡ true → (a == "p2") ≡ false
not_both a h =
    let same : "p1" ≡ a = ground (arith, eq_iff a "p1") in
    let other : ("p1" == "p2") ≡ false = refl in rw (sym same) other

same_id : (a b c : String) → (a == c) ≡ true → (b == c) ≡ true → (a == b) ≡ true
same_id a b c h k = ground (arith, eq_iff a c, eq_iff b c, eq_iff a b)

server-IsUuidOrder : IsUuidOrder plain_codecs server
server-IsUuidOrder = record {
  irrefl = λ a. ground (arith, not_both a);
  transitive = λ a b c h k. ground (arith, not_both b);
  total = λ a b u v ne h. ground (arith, same_id a b "p1", same_id a b "p2");
}

walk_two :
    walk thousandths plain_codecs server 2 one_a_page two_places
    ≡ some (record cafe { accessibility = some verified } ∷ bar ∷ [])
unfolding walk list_places find_listed preload cut_page sort_listed insert_listed name_matches
    after_cursor area places_query encode decode split_bar statement
walk_two = refl

walk-list_places_example :
    (all : List Place) × (walk thousandths plain_codecs server 3 one_a_page two_places
      ≡ some (map (with_profile two_places.profiles) all))
    × IsListed plain_codecs server all
    × (find_first (has_place "p2") all ≡ some bar)
unfolding area name_matches after_cursor places_query
walk-list_places_example =
    walk-list_places thousandths plain_codecs server one_a_page (λ p. true) two_places "p2"
      server-IsUuidOrder plain_codecs-IsCodec ((refl, refl), (refl, tt), ((refl, refl), tt, tt))
      refl refl (omega arith) refl

list_places-Perm_example :
    (list_places thousandths plain_codecs server one_a_page
      (record two_places { places = bar ∷ cafe ∷ [] })).0
    ≡ (list_places thousandths plain_codecs server one_a_page two_places).0
unfolding area places_query
list_places-Perm_example =
    list_places-Perm thousandths plain_codecs server one_a_page (λ p. true) two_places
      (bar ∷ cafe ∷ []) server-IsUuidOrder ((refl, refl), (refl, tt), ((refl, refl), tt, tt))
      (Permᴰ.swap refl refl) refl refl refl
