-- ===== src/Scripts/Tables/Script3019.antt =====
-- The functions of sample-assets-small/script-0019.js, a row for each line.
use cache_server_go.Base.{List, [], ◌∷◌}
use cache_server_go.Scripts.Fn.{Fn, ◌x+◌, ◌x-◌}

unfoldable pub fns_3019 : List Fn
fns_3019 =
    350986 x+ 100
    ∷ 136967 x+ 32
    ∷ 719731 x+ 14
    ∷ 93107 x- 13
    ∷ 39047 x+ 79
    ∷ 107932 x+ 96
    ∷ 593373 x+ 25
    ∷ 899761 x+ 41
    ∷ 40 x- 38
    ∷ 772647 x+ 35
    ∷ 226833 x+ 9
    ∷ 276237 x- 74
    ∷ 259418 x+ 43
    ∷ 819348 x- 6
    ∷ 26632 x+ 64
    ∷ 603799 x+ 82
    ∷ 638001 x- 80
    ∷ 80441 x+ 35
    ∷ 92791 x- 9
    ∷ 713265 x+ 89
    ∷ 648440 x+ 73
    ∷ 878656 x- 13
    ∷ 658671 x+ 74
    ∷ 974566 x- 43
    ∷ 838470 x- 4
    ∷ 243881 x- 14
    ∷ 58323 x+ 73
    ∷ 514193 x+ 52
    ∷ 820928 x- 70
    ∷ 19684 x- 72
    ∷ 669405 x- 46
    ∷ 843378 x- 51
    ∷ 73829 x+ 87
    ∷ 112618 x+ 36
    ∷ 598795 x+ 11
    ∷ 886446 x- 19
    ∷ 635903 x+ 18
    ∷ 570893 x+ 100
    ∷ 219021 x- 98
    ∷ 878939 x- 14
    ∷ 778138 x- 49
    ∷ 916693 x- 83
    ∷ 491096 x+ 51
    ∷ 270803 x+ 9
    ∷ 502347 x- 29
    ∷ 451708 x- 57
    ∷ 807365 x- 54
    ∷ 905002 x- 6
    ∷ 547217 x- 4
    ∷ 360913 x+ 63
    ∷ 776079 x- 58
    ∷ 15405 x- 92
    ∷ 9489 x- 19
    ∷ 532454 x- 6
    ∷ 427648 x- 57
    ∷ 478695 x- 33
    ∷ 691363 x+ 94
    ∷ 630270 x- 90
    ∷ 212711 x- 57
    ∷ 433995 x- 45
    ∷ 572018 x- 94
    ∷ 647309 x- 20
    ∷ 706324 x+ 40
    ∷ 115961 x+ 40
    ∷ 98022 x+ 42
    ∷ 551291 x+ 56
    ∷ 258204 x- 34
    ∷ 558668 x- 6
    ∷ 669397 x+ 63
    ∷ 268280 x- 53
    ∷ 482389 x+ 38
    ∷ 134952 x- 96
    ∷ 556387 x+ 46
    ∷ 146945 x- 24
    ∷ 541211 x- 96
    ∷ 718536 x+ 83
    ∷ 972031 x+ 16
    ∷ 396132 x+ 94
    ∷ 877033 x+ 81
    ∷ 318404 x- 24
    ∷ 382487 x- 35
    ∷ 490196 x+ 8
    ∷ 770784 x+ 23
    ∷ 19671 x+ 30
    ∷ 673053 x+ 81
    ∷ 792243 x+ 16
    ∷ 938835 x+ 52
    ∷ 762288 x- 67
    ∷ 902203 x- 40
    ∷ 720782 x- 13
    ∷ 163744 x- 2
    ∷ 946841 x+ 100
    ∷ 105903 x+ 74
    ∷ 81014 x- 13
    ∷ 84699 x+ 70
    ∷ 46056 x+ 26
    ∷ 146080 x+ 58
    ∷ 356647 x+ 84
    ∷ []
