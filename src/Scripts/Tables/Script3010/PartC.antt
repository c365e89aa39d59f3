-- ===== src/Scripts/Tables/Script3010/PartC.antt =====
-- The functions 300 to 341 of sample-assets-small/script-0010.js, a row for each line.
use cache_server_go.Base.{List, [], ◌∷◌}
use cache_server_go.Scripts.Fn.{Fn, ◌x+◌, ◌x-◌}

unfoldable pub fns_3010_c : List Fn
fns_3010_c =
    1376 x- 5
    ∷ 728776 x- 43
    ∷ 708547 x- 40
    ∷ 693035 x+ 52
    ∷ 971686 x- 93
    ∷ 403037 x+ 60
    ∷ 162155 x+ 46
    ∷ 401062 x- 33
    ∷ 392091 x- 27
    ∷ 17618 x+ 47
    ∷ 264805 x+ 37
    ∷ 375083 x- 59
    ∷ 419860 x- 24
    ∷ 561150 x- 62
    ∷ 464895 x+ 87
    ∷ 412075 x- 1
    ∷ 578048 x+ 50
    ∷ 798319 x- 80
    ∷ 935619 x+ 58
    ∷ 284840 x- 74
    ∷ 384075 x+ 58
    ∷ 20468 x- 1
    ∷ 629139 x+ 43
    ∷ 632820 x+ 16
    ∷ 126707 x- 75
    ∷ 785374 x- 42
    ∷ 471148 x- 54
    ∷ 188311 x- 23
    ∷ 693860 x- 37
    ∷ 755333 x- 49
    ∷ 830989 x+ 57
    ∷ 304532 x+ 96
    ∷ 152711 x+ 85
    ∷ 114203 x- 48
    ∷ 442606 x+ 42
    ∷ 371560 x- 78
    ∷ 229318 x- 74
    ∷ 201952 x+ 5
    ∷ 399130 x- 8
    ∷ 746227 x- 54
    ∷ 99476 x+ 99
    ∷ 521257 x- 22
    ∷ []
