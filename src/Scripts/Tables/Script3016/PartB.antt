-- ===== src/Scripts/Tables/Script3016/PartB.antt =====
-- The functions 150 to 299 of sample-assets-small/script-0016.js, a row for each line.
use cache_server_go.Base.{List, [], ◌∷◌}
use cache_server_go.Scripts.Fn.{Fn, ◌x+◌, ◌x-◌}

unfoldable pub fns_3016_b : List Fn
fns_3016_b =
    772260 x+ 96
    ∷ 474052 x+ 98
    ∷ 793122 x- 58
    ∷ 428141 x+ 30
    ∷ 563471 x+ 43
    ∷ 640943 x+ 78
    ∷ 445722 x+ 8
    ∷ 156641 x- 96
    ∷ 982747 x- 83
    ∷ 832498 x+ 68
    ∷ 549846 x+ 4
    ∷ 840438 x- 5
    ∷ 225952 x- 75
    ∷ 867251 x+ 6
    ∷ 146614 x- 25
    ∷ 919549 x- 34
    ∷ 771123 x+ 90
    ∷ 934062 x+ 62
    ∷ 548106 x+ 26
    ∷ 895279 x+ 12
    ∷ 130857 x+ 17
    ∷ 295868 x- 81
    ∷ 188857 x- 40
    ∷ 49324 x+ 10
    ∷ 672831 x- 29
    ∷ 938778 x+ 10
    ∷ 864294 x+ 55
    ∷ 426534 x- 45
    ∷ 559097 x+ 38
    ∷ 756518 x- 36
    ∷ 783437 x+ 52
    ∷ 18949 x+ 6
    ∷ 5746 x+ 24
    ∷ 360795 x+ 1
    ∷ 677564 x- 65
    ∷ 819337 x+ 81
    ∷ 551535 x- 81
    ∷ 905765 x- 8
    ∷ 873042 x- 67
    ∷ 225657 x- 21
    ∷ 546453 x- 89
    ∷ 546026 x- 56
    ∷ 238734 x+ 32
    ∷ 602872 x+ 89
    ∷ 269223 x- 20
    ∷ 988729 x- 14
    ∷ 332694 x- 86
    ∷ 8074 x- 90
    ∷ 909268 x- 79
    ∷ 183161 x- 65
    ∷ 562475 x- 97
    ∷ 995337 x+ 21
    ∷ 613923 x- 44
    ∷ 681772 x+ 7
    ∷ 680627 x+ 75
    ∷ 757732 x+ 9
    ∷ 387622 x+ 24
    ∷ 916793 x- 37
    ∷ 618307 x+ 22
    ∷ 325087 x- 32
    ∷ 304000 x- 83
    ∷ 772439 x+ 0
    ∷ 364774 x- 29
    ∷ 432103 x+ 15
    ∷ 453788 x+ 13
    ∷ 787688 x- 65
    ∷ 85835 x- 82
    ∷ 163683 x+ 87
    ∷ 217772 x- 91
    ∷ 668511 x- 75
    ∷ 684269 x+ 3
    ∷ 98228 x+ 12
    ∷ 411175 x- 10
    ∷ 672257 x+ 27
    ∷ 448704 x+ 95
    ∷ 595026 x- 1
    ∷ 289052 x- 60
    ∷ 434032 x+ 3
    ∷ 305654 x- 43
    ∷ 489890 x+ 12
    ∷ 535707 x+ 51
    ∷ 686741 x+ 4
    ∷ 173716 x- 42
    ∷ 764310 x- 79
    ∷ 31472 x+ 32
    ∷ 652938 x+ 61
    ∷ 823168 x+ 7
    ∷ 101793 x+ 18
    ∷ 87152 x+ 32
    ∷ 46624 x+ 8
    ∷ 694961 x- 18
    ∷ 26629 x+ 45
    ∷ 866824 x- 14
    ∷ 933480 x- 76
    ∷ 129194 x+ 94
    ∷ 706024 x- 59
    ∷ 146306 x+ 0
    ∷ 197910 x- 70
    ∷ 973350 x+ 41
    ∷ 194418 x- 90
    ∷ 480776 x- 92
    ∷ 774989 x+ 30
    ∷ 430345 x- 27
    ∷ 977854 x- 74
    ∷ 451817 x- 79
    ∷ 847663 x- 62
    ∷ 463707 x+ 73
    ∷ 939175 x- 97
    ∷ 271250 x- 45
    ∷ 845488 x- 69
    ∷ 679579 x- 58
    ∷ 451705 x- 59
    ∷ 963946 x+ 7
    ∷ 703951 x- 70
    ∷ 491824 x+ 31
    ∷ 25067 x- 9
    ∷ 152209 x- 97
    ∷ 780786 x- 47
    ∷ 847573 x- 25
    ∷ 702332 x+ 73
    ∷ 75952 x+ 12
    ∷ 211423 x- 85
    ∷ 763862 x+ 51
    ∷ 852891 x- 80
    ∷ 809368 x+ 99
    ∷ 963014 x+ 64
    ∷ 157016 x+ 99
    ∷ 581811 x- 41
    ∷ 321162 x+ 83
    ∷ 460942 x- 50
    ∷ 867031 x- 22
    ∷ 275318 x- 65
    ∷ 836593 x+ 5
    ∷ 428435 x- 52
    ∷ 13767 x- 67
    ∷ 826958 x+ 86
    ∷ 42693 x+ 78
    ∷ 43614 x+ 72
    ∷ 189074 x+ 58
    ∷ 11923 x- 64
    ∷ 196342 x- 47
    ∷ 394257 x- 67
    ∷ 463293 x+ 16
    ∷ 254708 x- 77
    ∷ 382679 x+ 76
    ∷ 958080 x- 29
    ∷ 770976 x- 83
    ∷ 506886 x- 81
    ∷ 552136 x+ 2
    ∷ 646849 x+ 54
    ∷ []
