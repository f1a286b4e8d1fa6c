-- ===== src/Print/Tests.antt =====
-- Some numbers.
use net_utils.Base.{◌≡◌, refl, pos, negsuc}
use net_utils.Protocol.{codes}
use net_utils.Print.{print, print_int}

zero_lem : print 0 ≡ codes "0"
unfolding print
zero_lem = refl

one_hundred : print_int (pos 100) ≡ codes "100"
unfolding print_int
one_hundred = refl

minus_ten : print_int (negsuc 9) ≡ codes "-10"
unfolding print_int
minus_ten = refl
